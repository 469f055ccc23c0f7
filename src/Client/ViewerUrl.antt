-- ===== src/Client/ViewerUrl.antt =====
-- `web_viewer_base_url` of crates/client/src/ui/lobby.rs. Text is a list of code points.
pub mod Parts
pub mod Credentials
use Prim.Native.Char.{code}
use war3_battle_tool.Prelude.{
  ℕ, List, [], ◌∷◌, ◌++◌, Option, none, some, Bool, true, false, ◌||◌, ◌==◌, nat_eq, codes,
  is_empty, if◌then◌else◌,
}

abbrev pub Text : Type 0
Text = List ℕ

abbrev pub slash : ℕ
slash = b'/'

abbrev pub is_query : ℕ → Bool
is_query c = c == b'?' || c == b'#'

-- `s.strip_prefix(prefix)`
unfoldable pub strip_prefix : Text → Text → Option Text
strip_prefix [] s = some s
strip_prefix (p ∷ prefix) [] = none
strip_prefix (p ∷ prefix) (c ∷ s) =
    let rest = strip_prefix prefix s in if p == c then rest else none

-- `s.split(test).next()`
unfoldable pub before_first : (ℕ → Bool) → Text → Text
before_first test [] = []
before_first test (c ∷ s) = let rest = before_first test s in if test c then [] else c ∷ rest

-- `s.rsplit('@').next()`
unfoldable pub after_last_at : Text → Text → Text
after_last_at seen [] = seen
after_last_at seen (c ∷ s) = after_last_at (if c == b'@' then [] else seen ++ c ∷ []) s

abbrev pub fallback : Text
fallback = codes "https://war3.kalthor.cc"

-- The host and port after the scheme.
unfoldable pub host_port : Text → Text
unfolding before_first after_last_at
host_port rest = after_last_at [] (before_first is_query (before_first (λ c. c == slash) rest))

unfoldable pub base_url : Text → Text → Text
unfolding host_port
base_url scheme rest =
    if is_empty (host_port rest) then fallback else scheme ++ codes "://" ++ host_port rest

unfoldable pub web_viewer_base_url : Text → Text
unfolding strip_prefix base_url
web_viewer_base_url server_url = elim (strip_prefix (codes "wss://") server_url) [
  | some r ↦ base_url (codes "https") r
  | none ↦ elim (strip_prefix (codes "ws://") server_url) [
    | some r ↦ base_url (codes "http") r
    | none ↦ elim (strip_prefix (codes "https://") server_url) [
      | some r ↦ base_url (codes "https") r
      | none ↦ elim (strip_prefix (codes "http://") server_url) [
        | some r ↦ base_url (codes "http") r
        | none ↦ fallback
      ]
    ]
  ]
]
