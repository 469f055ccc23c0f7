-- ===== src/Prelude/Text.antt =====
-- Text as a list of code points, and Rust's `trim`.
use Prim.Native.Nat.{ℕ}
use Prim.Native.Char.{code}
use Prim.Native.String.{String}
use mathlib.Core.Bool.{Bool, true, ◌&&◌, ◌||◌}
use mathlib.Core.List.{List, [], ◌∷◌, ◌++◌, reverse, reverse-cons, reverse-reverse}
use mathlib.Core.Logic.{◌↔◌}
use mathlib.Core.Path.{◌≡◌, refl, ap, ◌∙◌, sym}
use native.Mathlib.Omega.{arith}
use war3_battle_tool.Prelude.Lists.{All}
use war3_battle_tool.Prelude.Tests.{leb, nat_eq, ◌==◌, if◌then◌else◌}

-- `chars()`, each character as its number.
abbrev pub codes : String → List ℕ
codes String.[] = []
codes (String.◌∷◌ c s) = code c ∷ codes s

-- `char::is_whitespace`: the characters with the Unicode property White_Space.
unfoldable pub is_whitespace : ℕ → Bool
is_whitespace c =
    (leb 9 c && leb c 13)
    || c == 32
    || c == 0x85
    || c == 0xa0
    || c == 0x1680
    || (leb 0x2000 c && leb c 0x200a)
    || c == 0x2028
    || c == 0x2029
    || c == 0x202f
    || c == 0x205f
    || c == 0x3000

unfoldable pub trim_start : List ℕ → List ℕ
trim_start [] = []
trim_start (c ∷ cs) = let rest = trim_start cs in if is_whitespace c then rest else c ∷ cs

unfoldable pub trim : List ℕ → List ℕ
unfolding trim_start
trim cs = reverse (trim_start (reverse (trim_start cs)))

abbrev pub AllBlank : List ℕ → Type 0
AllBlank = All (λ c. is_whitespace c ≡ true)

trim_start-AllBlank : (cs : List ℕ) → AllBlank cs → trim_start cs ≡ []
unfolding trim_start
trim_start-AllBlank [] h = refl
trim_start-AllBlank (c ∷ cs) h = ground (arith, trim_start-AllBlank cs h.1)

AllBlank-trim_start : (cs : List ℕ) → trim_start cs ≡ [] → AllBlank cs
unfolding trim_start
AllBlank-trim_start [] h = tt
AllBlank-trim_start (c ∷ cs) h = ground (arith, AllBlank-trim_start cs)

AllBlank-append : (xs ys : List ℕ) → AllBlank (xs ++ ys) → AllBlank xs × AllBlank ys
AllBlank-append [] ys h = (tt, h)
AllBlank-append (x ∷ xs) ys h = let (l, r) = AllBlank-append xs ys h.1 in ((h.0, l), r)

AllBlank-reverse : (cs : List ℕ) → AllBlank (reverse cs) → AllBlank cs
AllBlank-reverse [] h = tt
AllBlank-reverse (c ∷ cs) h =
    let (rest, last) = AllBlank-append (reverse cs) (c ∷ []) (rw reverse-cons at h) in
    (last.0, AllBlank-reverse cs rest)

-- What `trim_start` leaves begins with no white space.
trim_start_stuck : (cs : List ℕ) → AllBlank (trim_start cs) → trim_start cs ≡ []
unfolding trim_start
trim_start_stuck [] h = refl
trim_start_stuck (c ∷ cs) h = ground (arith, trim_start_stuck cs)

reverse-eq-nil : (cs : List ℕ) → reverse cs ≡ [] → cs ≡ []
reverse-eq-nil cs h = sym (reverse-reverse cs) ∙ ap reverse h

-- A text is blank exactly when each of its characters is white space.
pub trim-eq-nil_iff : (cs : List ℕ) → (trim cs ≡ []) ↔ AllBlank cs
unfolding trim
trim-eq-nil_iff cs = (
  λ h.
      AllBlank-trim_start cs
        (trim_start_stuck cs (AllBlank-reverse _ (AllBlank-trim_start _ (reverse-eq-nil _ h)))),
  λ h. rw (trim_start-AllBlank cs h) refl,
)
