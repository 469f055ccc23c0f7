-- ===== src/Server/Origin.antt =====
-- The `Origin` check and the client's address of crates/server/src/main.rs. Text is its code points.
-- The crate `url` parses: what the code reads of a `Url` is a record.
pub mod Accepted
use war3_battle_tool.Prelude.{
  ℕ, ◌+◌, ◌/◌, ◌%◌, zero, suc, Bool, true, false, Option, none, some, List, [], ◌∷◌, ◌++◌, not, leb,
  ltb, any, filter, is_empty, is_some, codes, trim, ◌==◌, nat_eq, ◌&&◌, ◌||◌, if◌then◌else◌, Result,
  ok, err,
}
use war3_battle_tool.Protocol.AddrSafety.{IpAddr, SocketAddr, is_loopback}

abbrev pub Text : Type 0
Text = List ℕ

unfoldable pub text_beq : Text → Text → Bool
text_beq [] [] = true
text_beq [] (y ∷ ys) = false
text_beq (x ∷ xs) [] = false
text_beq (x ∷ xs) (y ∷ ys) = let rest = text_beq xs ys in if x == y then rest else false

-- `to_ascii_lowercase` of a character
abbrev pub lower : ℕ → ℕ
lower c = if leb 65 c && leb c 90 then c + 32 else c

unfoldable pub eq_ignore_ascii_case : Text → Text → Bool
eq_ignore_ascii_case [] [] = true
eq_ignore_ascii_case [] (y ∷ ys) = false
eq_ignore_ascii_case (x ∷ xs) [] = false
eq_ignore_ascii_case (x ∷ xs) (y ∷ ys) =
    let rest = eq_ignore_ascii_case xs ys in if lower x == lower y then rest else false

-- `{}` of a `u16`, which has at most five digits.
unfoldable pub decimal : ℕ → ℕ → Text
decimal zero n = []
decimal (suc fuel) n =
    let high = decimal fuel (n / 10) in
    if ltb n 10 then (48 + n) ∷ [] else high ++ (48 + n % 10) ∷ []

abbrev pub show_port : ℕ → Text
show_port = decimal 5

pub record Url : Type 0 where
  pub scheme : Text
  pub path : Text
  pub query : Option Text
  pub fragment : Option Text
  pub username : Text
  pub host_str : Option Text
  pub port : Option ℕ
  pub port_or_known_default : Option ℕ

abbrev pub ParseUrl : Type 0
ParseUrl = Text → Option Url

-- `matches!(url.scheme(), "http" | "https")`
unfoldable pub is_http : Url → Bool
unfolding text_beq
is_http url = text_beq url.scheme (codes "http") || text_beq url.scheme (codes "https")

unfoldable pub has_path : Url → Bool
unfolding text_beq
has_path url = not (is_empty url.path) && not (text_beq url.path (codes "/"))

abbrev pub has_extras : Url → Bool
has_extras url = is_some url.query || is_some url.fragment || not (is_empty url.username)

unfoldable pub format_origin : Text → Text → Option ℕ → Text
unfolding decimal
format_origin scheme host none = scheme ++ codes "://" ++ host
format_origin scheme host (some p) = scheme ++ codes "://" ++ host ++ codes ":" ++ show_port p

-- What an entry is refused for; the text of the error is not kept.
pub data EntryError : Type 0 where
  not_a_url : EntryError
  not_http : EntryError
  with_path : EntryError
  with_extras : EntryError
  without_host : EntryError

unfoldable pub parse_allowed_origin : ParseUrl → Text → Result EntryError Text
unfolding is_http has_path format_origin
parse_allowed_origin parse s = elim (parse s) [
  | none ↦ err not_a_url
  | some url ↦
      if not (is_http url)
      then err not_http
      else if has_path url
      then err with_path
      else if has_extras url
      then err with_extras
      else elim url.host_str [
        | none ↦ err without_host
        | some host ↦ ok (format_origin url.scheme host url.port)
      ]
]

abbrev pub default_origins : List Text
default_origins =
    codes "https://war3.kalthor.cc"
    ∷ codes "http://localhost"
    ∷ codes "https://localhost"
    ∷ codes "http://127.0.0.1"
    ∷ codes "http://[::1]"
    ∷ []

-- `split(',')`
unfoldable pub split_comma : Text → List Text
split_comma [] = [] ∷ []
split_comma (c ∷ cs) = elim (split_comma cs) [
  | [] ↦ (c ∷ []) ∷ []
  | part ∷ parts ↦ if c == 44 then [] ∷ part ∷ parts else (c ∷ part) ∷ parts
]

-- `map(parse_allowed_origin).collect()`: the first error, or all.
unfoldable pub parse_all : ParseUrl → List Text → Result EntryError (List Text)
unfolding parse_allowed_origin
parse_all parse [] = ok []
parse_all parse (s ∷ entries) = elim (parse_allowed_origin parse s) [
  | err e ↦ err e
  | ok origin ↦ elim (parse_all parse entries) [
    | err e ↦ err e
    | ok origins ↦ ok (origin ∷ origins)
  ]
]

abbrev trimmed_parts : List Text → List Text
trimmed_parts [] = []
trimmed_parts (s ∷ parts) = trim s ∷ trimmed_parts parts

-- `raw` is the variable WAR3_ALLOWED_ORIGINS, where it is set and is Unicode.
unfoldable pub load_allowed_origins : ParseUrl → Option Text → Result EntryError (List Text)
unfolding parse_all split_comma trim
load_allowed_origins parse none = ok default_origins
load_allowed_origins parse (some raw) =
    if is_empty (trim raw)
    then ok default_origins
    else parse_all parse (filter (λ s. not (is_empty s)) (trimmed_parts (split_comma (trim raw))))

-- A header's value: its text, where it is visible ASCII.
abbrev pub HeaderValue : Type 0
HeaderValue = Option Text

abbrev pub is_listed : Text → Text → Text → Bool
is_listed candidate plain a = eq_ignore_ascii_case a candidate || eq_ignore_ascii_case a plain

unfoldable pub validate_url : Text → Url → List Text → Result Text (Unit {0})
unfolding is_http has_path format_origin eq_ignore_ascii_case
validate_url s url allowed =
    if not (is_http url)
    then err s
    else if has_path url
    then err s
    else if has_extras url
    then err s
    else elim url.host_str [
      | none ↦ err s
      | some host ↦
          let candidate = format_origin url.scheme host url.port_or_known_default in
          let plain = format_origin url.scheme host none in
          if any (is_listed candidate plain) allowed then ok tt else err s
    ]

-- The values of the `Origin` headers of a request, in order.
unfoldable pub validate_origin_against :
    ParseUrl → List HeaderValue → List Text → Result Text (Unit {0})
unfolding validate_url
validate_origin_against parse [] allowed = ok tt
validate_origin_against parse (raw ∷ second ∷ headers) allowed =
    err (codes "multiple Origin headers")
validate_origin_against parse (none ∷ []) allowed = err (codes "non-UTF-8 Origin")
validate_origin_against parse (some s ∷ []) allowed = elim (parse s) [
  | none ↦ err s
  | some url ↦ validate_url s url allowed
]

-- `X-Real-IP`, believed only of a proxy on this host.
unfoldable pub real_ip : (Text → Option IpAddr) → Option HeaderValue → SocketAddr → IpAddr
real_ip parse_ip header fallback =
    if is_loopback fallback.ip
    then elim header [
      | some (some s) ↦ elim (parse_ip s) [ none ↦ fallback.ip | some ip ↦ ip ]
      | _ ↦ fallback.ip
    ]
    else fallback.ip
