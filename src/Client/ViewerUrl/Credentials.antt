-- ===== src/Client/ViewerUrl/Credentials.antt =====
-- What the link of crates/client/src/ui/lobby.rs may hold of the server's URL.
use war3_battle_tool.Prelude.{
  [], ◌∷◌, ◌++◌, true, Option, none, some, ap, ◌∙◌, subst, ◌≡◌, ◌≢◌, refl, arith, nat_eq, codes,
  is_empty, by_if, by_option,
}
use war3_battle_tool.Client.ViewerUrl.{Text, strip_prefix, host_port, base_url, web_viewer_base_url}
use war3_battle_tool.Client.ViewerUrl.Parts.{HostOf, host_port-HostOf}

-- What the scheme of the server's URL becomes.
pub data Scheme : Text → Text → Type 0 where
  wss : Scheme (codes "wss://") (codes "https")
  ws : Scheme (codes "ws://") (codes "http")
  https : Scheme (codes "https://") (codes "https")
  http : Scheme (codes "http://") (codes "http")

-- The base with the host of the server's URL.
pub record Kept (server_url base : Text) : Type 0 where
  pub from : Text
  pub to : Text
  pub scheme : Scheme from to
  pub rest : Text
  pub host : Text
  pub starts : server_url ≡ from ++ rest
  pub host_of : HostOf rest host
  pub nonempty : host ≢ []
  pub split : base ≡ to ++ codes "://" ++ host

abbrev pub HasNoHost : Text → Type 0
HasNoHost server_url =
    (from : Text) × (to : Text) × (rest : Text) × Scheme from to
    × (server_url ≡ from ++ rest)
    × HostOf rest []

abbrev pub HasNoScheme : Text → Type 0
HasNoScheme server_url = (from to rest : Text) → Scheme from to → server_url ≢ from ++ rest

pub data IsBase (server_url base : Text) : Type 0 where
  kept : Kept server_url base → IsBase server_url base
  no_host : HasNoHost server_url → base ≡ codes "https://war3.kalthor.cc" → IsBase server_url base
  no_scheme :
      HasNoScheme server_url → base ≡ codes "https://war3.kalthor.cc" → IsBase server_url base

abbrev from_some {ℓ} : {A : Type ℓ} → A → Option A → A
from_some a none = a
from_some a (some b) = b

strip_prefix-eq : (prefix s r : Text) → strip_prefix prefix s ≡ some r → s ≡ prefix ++ r
unfolding strip_prefix
strip_prefix-eq [] s r h = ap (from_some s) h
strip_prefix-eq (p ∷ prefix) [] r h = cc
strip_prefix-eq (p ∷ prefix) (c ∷ s) r h =
    let rest : strip_prefix prefix s ≡ some r = ground arith in
    let same : c ≡ p = ground arith in
    ap (λ d. d ∷ s) same ∙ ap (λ t. p ∷ t) (strip_prefix-eq prefix s r rest)

strip_prefix-append : (prefix r : Text) → strip_prefix prefix (prefix ++ r) ≡ some r
unfolding strip_prefix
strip_prefix-append [] r = refl
strip_prefix-append (p ∷ prefix) r = ground (arith, strip_prefix-append prefix r)

base_url-IsBase :
    (server_url from to rest : Text)
    → Scheme from to
    → strip_prefix from server_url ≡ some rest
    → IsBase server_url (base_url to rest)
unfolding base_url
base_url-IsBase server_url from to rest scheme h =
    let starts = strip_prefix-eq from server_url rest h in
    by_if (IsBase server_url) (is_empty (host_port rest)) _ _
      (λ e.
        no_host
          (
            from,
            to,
            rest,
            scheme,
            starts,
            subst (HostOf rest) (empty_eq (host_port rest) e) (host_port-HostOf rest),
          )
          refl)
      (λ e. kept (record {
        from = from;
        to = to;
        scheme = scheme;
        rest = rest;
        host = host_port rest;
        starts = starts;
        host_of = host_port-HostOf rest;
        nonempty = λ k. ground (arith, ap is_empty k);
        split = refl;
      }))
  where
    empty_eq : (t : Text) → is_empty t ≡ true → t ≡ []
    empty_eq [] k = refl
    empty_eq (c ∷ t) k = cc

-- The base of the link that is shared: where the server's URL starts with one of four schemes, it is
-- `https` (for `wss` and `https`) or `http` (for `ws` and `http`) with the host and port of the URL,
-- which are what stands after the last `@` of the part up to the first of `/`, `?` and `#`, so neither a
-- user name or a password that ends at that `@` nor a path, query or fragment is in it. Where these are
-- empty, or the URL has none of the schemes, it is the address of the public server.
pub viewer_url-IsBase : (server_url : Text) → IsBase server_url (web_viewer_base_url server_url)
unfolding web_viewer_base_url
viewer_url-IsBase s =
    by_option (IsBase s) (strip_prefix (codes "wss://") s) _ _
      (λ a.
        by_option (IsBase s) (strip_prefix (codes "ws://") s) _ _
          (λ b.
            by_option (IsBase s) (strip_prefix (codes "https://") s) _ _
              (λ c.
                by_option (IsBase s) (strip_prefix (codes "http://") s) _ _
                  (λ d. no_scheme (none_of a b c d) refl) (λ r h. base_url-IsBase s _ _ r http h))
              (λ r h. base_url-IsBase s _ _ r https h))
          (λ r h. base_url-IsBase s _ _ r ws h))
      (λ r h. base_url-IsBase s _ _ r wss h)
  where
    fails : (prefix rest : Text) → strip_prefix prefix s ≡ none → s ≢ prefix ++ rest
    fails prefix rest h e =
        let found : strip_prefix prefix s ≡ some rest =
          ap (strip_prefix prefix) e ∙ strip_prefix-append prefix rest in
        cc

    none_of :
        strip_prefix (codes "wss://") s ≡ none
        → strip_prefix (codes "ws://") s ≡ none
        → strip_prefix (codes "https://") s ≡ none
        → strip_prefix (codes "http://") s ≡ none
        → HasNoScheme s
    none_of a b c d from to rest wss = fails (codes "wss://") rest a
    none_of a b c d from to rest ws = fails (codes "ws://") rest b
    none_of a b c d from to rest https = fails (codes "https://") rest c
    none_of a b c d from to rest http = fails (codes "http://") rest d
