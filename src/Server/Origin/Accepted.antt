-- ===== src/Server/Origin/Accepted.antt =====
-- Which origins get through.
use war3_battle_tool.Prelude.{
  ℕ, ◌≡◌, refl, ap, Bool, true, false, Option, none, some, List, [], ◌∷◌, ◌++◌, not, any, arith,
  nat_eq, ok, Option-cases, inl, inr, if-true, if-false, elim-some, ◌⊎◌,
}
use war3_battle_tool.Server.Origin.{
  Text, Url, ParseUrl, eq_ignore_ascii_case, is_http, has_path, has_extras, format_origin,
  parse_allowed_origin, is_listed, validate_url, validate_origin_against,
}

eq_ignore_ascii_case_refl : (t : Text) → eq_ignore_ascii_case t t ≡ true
unfolding eq_ignore_ascii_case
eq_ignore_ascii_case_refl [] = refl
eq_ignore_ascii_case_refl (c ∷ t) = ground (arith, eq_ignore_ascii_case_refl t)

any-append :
    (p : Text → Bool) (before after : List Text) (t : Text)
    → p t ≡ true
    → any p (before ++ t ∷ after) ≡ true
any-append p [] after t h = ground arith
any-append p (x ∷ before) after t h = ground (arith, any-append p before after t h)

-- The parts of a URL that make an origin.
abbrev IsOrigin : Url → Text → Type 0
IsOrigin url host =
    (is_http url ≡ true)
    × (has_path url ≡ false)
    × (has_extras url ≡ false)
    × (url.host_str ≡ some host)

parsed_entry :
    (parse : ParseUrl) (s : Text) (url : Url) (origin : Text)
    → parse s ≡ some url
    → parse_allowed_origin parse s ≡ ok origin
    → (host : Text) × IsOrigin url host × (origin ≡ format_origin url.scheme host url.port)
unfolding parse_allowed_origin
parsed_entry parse s url origin found h = elim (Option-cases url.host_str) [
  | inl missing ↦ absurd (ground (arith, found))
  | inr (host, at) ↦ (
    host,
    (ground (arith, found), ground (arith, found), ground (arith, found), at),
    ground (arith, found, at),
  )
]

module _ (url : Url) (host s : Text) (allowed : List Text) (o : IsOrigin url host) where
  -- A URL whose origin, with its port or without, is on the list.
  listed-ok :
      any
          (is_listed
            (format_origin url.scheme host url.port_or_known_default)
            (format_origin url.scheme host none))
          allowed
        ≡ true
      → validate_url s url allowed ≡ ok tt
  unfolding validate_url
  listed-ok h =
      if-false _ _ _ (ap not o.0)
        (if-false _ _ _ o.1 (if-false _ _ _ o.2 (elim-some _ _ _ o.3 (if-true _ _ _ h refl))))

is_listed_with :
    (url : Url) (host : Text) (port : Option ℕ)
    → (port ≡ none) ⊎ (url.port_or_known_default ≡ port)
    → is_listed
        (format_origin url.scheme host url.port_or_known_default)
        (format_origin url.scheme host none)
        (format_origin url.scheme host port)
      ≡ true
is_listed_with url host port h =
    ground (arith, eq_ignore_ascii_case_refl (format_origin url.scheme host port))

-- What the operator lists gets through: an entry that `parse_allowed_origin` takes, sent as the one
-- `Origin` of a request, is accepted, wherever it stands in the list. (A URL that shows its port has
-- it as its port or known default.)
pub entry-accepted :
    (parse : ParseUrl) (s : Text) (url : Url) (origin : Text) (before after : List Text)
    → parse s ≡ some url
    → parse_allowed_origin parse s ≡ ok origin
    → (url.port ≡ none) ⊎ (url.port_or_known_default ≡ url.port)
    → validate_origin_against parse (some s ∷ []) (before ++ origin ∷ after) ≡ ok tt
unfolding validate_origin_against
entry-accepted parse s url origin before after found listed port =
    let (host, is_origin, same) = parsed_entry parse s url origin found listed in
    elim-some _ _ _ found (
      listed-ok url host s (before ++ origin ∷ after) is_origin
        (any-append _ before after origin (rw (same) (is_listed_with url host url.port port))))

-- An entry whose URL shows no port, as it does where the operator writes the scheme's default port,
-- lets its host through on every port.
entry-any_port :
    (parse : ParseUrl) (s s' : Text) (url url' : Url) (origin host : Text)
    (before after : List Text)
    → parse s ≡ some url
    → parse_allowed_origin parse s ≡ ok origin
    → url.port ≡ none
    → url.host_str ≡ some host
    → parse s' ≡ some url'
    → url'.scheme ≡ url.scheme
    → (is_http url' ≡ true)
      × (has_path url' ≡ false)
      × (has_extras url' ≡ false)
      × (url'.host_str ≡ some host)
    → validate_origin_against parse (some s' ∷ []) (before ++ origin ∷ after) ≡ ok tt
unfolding validate_origin_against
entry-any_port parse s s' url url' origin host before after found listed no_port at found' scheme
      is_origin' =
    let (host', is_origin, same) = parsed_entry parse s url origin found listed in
    let same_host : host' ≡ host = ground (arith, is_origin.3, at) in
    let plain : origin ≡ format_origin url'.scheme host none =
      ground (arith, same, no_port, same_host, scheme) in
    elim-some _ _ _ found' (
      listed-ok url' host s' (before ++ origin ∷ after) is_origin'
        (any-append _ before after origin (rw (plain) (is_listed_with url' host none (inl refl)))))
