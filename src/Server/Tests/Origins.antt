-- ===== src/Server/Tests/Origins.antt =====
-- The `Origin` check on one entry, with a parser that knows one URL.
use war3_battle_tool.Prelude.{
  ◌≡◌, refl, none, some, [], ◌∷◌, ◌++◌, codes, inl, ok, ◌==◌, nat_eq, if◌then◌else◌,
}
use war3_battle_tool.Protocol.AddrSafety.{ip_eq}
use war3_battle_tool.Server.Origin.{Url, ParseUrl, validate_origin_against, parse_allowed_origin}
use war3_battle_tool.Server.Origin.Accepted.{entry-accepted}

abbrev entry_url : Url
entry_url = record {
  scheme = codes "https";
  path = codes "/";
  query = none;
  fragment = none;
  username = [];
  host_str = some (codes "w.cc");
  port = none;
  port_or_known_default = some 443;
}

abbrev sent_url : Url
sent_url = record entry_url { port = some 8080; port_or_known_default = some 8080 }

-- `https://w.cc:443` and `https://w.cc:8080`, told apart by their last digit.
abbrev parse : ParseUrl
parse [] = none
parse (c ∷ cs) = if c == 51 then some entry_url else if c == 48 then some sent_url else parse cs

entry-accepted_example :
    validate_origin_against parse (some (codes "443") ∷ []) ([] ++ codes "https://w.cc" ∷ [])
    ≡ ok tt
unfolding parse_allowed_origin
entry-accepted_example =
    entry-accepted parse (codes "443") entry_url (codes "https://w.cc") [] [] refl refl (inl refl)
