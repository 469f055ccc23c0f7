-- ===== src/Protocol/War3/Bytes.antt =====
-- What war3.rs uses of slices and strings: indexing and slicing, which panic out of range, the
-- position of a byte, and the searches of `str`, over the code points of a text.
use mathlib.Core.List.{reverse}
use war3_battle_tool.Prelude.{
  ℕ, zero, suc, ◌+◌, ◌-◌, List, [], ◌∷◌, Option, none, some, Checked, done, panic, length, take,
  drop, get_elem?, leb, ◌==◌, nat_eq, ◌&&◌, if◌then◌else◌,
}

-- `data[i]`
unfoldable pub index : List ℕ → ℕ → Checked ℕ
index bytes i = elim (get_elem? bytes i) [ none ↦ panic | some b ↦ done b ]

-- `data[a..]`
unfoldable pub slice_from : List ℕ → ℕ → Checked (List ℕ)
slice_from bytes a = if leb a (length bytes) then done (drop a bytes) else panic

-- `data[a..b]`
unfoldable pub slice : List ℕ → ℕ → ℕ → Checked (List ℕ)
slice bytes a b =
    if leb a b && leb b (length bytes) then done (take (b - a) (drop a bytes)) else panic

-- `bytes.iter().position(|&b| b == 0)`
unfoldable pub position_zero : List ℕ → Option ℕ
position_zero [] = none
position_zero (b ∷ bs) =
    if b == 0 then some 0 else elim (position_zero bs) [ none ↦ none | some i ↦ some (i + 1) ]

-- `s.rsplit_once(c)`
unfoldable pub rsplit_once : ℕ → List ℕ → Option (List ℕ × List ℕ)
rsplit_once c [] = none
rsplit_once c (x ∷ xs) = elim (rsplit_once c xs) [
  | none ↦ if x == c then some ([], xs) else none
  | some (l, r) ↦ some (x ∷ l, r)
]

unfoldable pub strip_prefix : List ℕ → List ℕ → Option (List ℕ)
strip_prefix [] s = some s
strip_prefix (p ∷ ps) [] = none
strip_prefix (p ∷ ps) (x ∷ xs) = if p == x then strip_prefix ps xs else none

-- Removes a prefix as often as it stands there, at most `fuel` times.
unfoldable pub strip_prefixes : ℕ → List ℕ → List ℕ → List ℕ
strip_prefixes zero p s = s
strip_prefixes (suc fuel) p s = elim (strip_prefix p s) [
  | none ↦ s
  | some rest ↦ strip_prefixes fuel p rest
]

-- `s.trim_end_matches(pattern)`, from the end of the text.
unfoldable pub trim_end_matches : List ℕ → List ℕ → List ℕ
unfolding strip_prefixes strip_prefix
trim_end_matches pattern s = reverse (strip_prefixes (length s) (reverse pattern) (reverse s))
