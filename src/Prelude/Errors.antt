-- ===== src/Prelude/Errors.antt =====
-- Fallible code: Rust's `Result`, and a value that a panic may replace.
use mathlib.Core.Bool.{Bool, true, false}
use mathlib.Core.Option.{Option, none, some}
use mathlib.Core.Path.{◌≡◌, refl, ap, ◌∙◌}
use war3_battle_tool.Prelude.Tests.{if◌then◌else◌}

pub data Result {ℓ κ} (E : Type ℓ) (A : Type κ) : Type (ℓ ⊔ κ) where
  ok : A → Result E A
  err : E → Result E A

pub data Checked {ℓ} (A : Type ℓ) : Type ℓ where
  done : A → Checked A
  panic : Checked A

infixl 5 ◌>>=◌
abbrev pub ◌>>=◌ {ℓ κ} : {A : Type ℓ} {B : Type κ} → Checked A → (A → Checked B) → Checked B
done a >>= f = f a
panic >>= f = panic

-- A run without a panic, and its value.
abbrev pub Returns {ℓ} : {A : Type ℓ} → Checked A → Type ℓ
Returns {A} m = (a : A) × (m ≡ done a)

pub Returns-bind {ℓ κ} :
    {A : Type ℓ} {B : Type κ} (m : Checked A) (f : A → Checked B)
    → Returns m
    → ((a : A) → m ≡ done a → Returns (f a))
    → Returns (m >>= f)
Returns-bind (done a) f r h = h a refl
Returns-bind panic f (a, e) h = cc

module _ {ℓ} {A : Type ℓ} where
  pub Returns-if :
      (b : Bool) (m n : Checked A)
      → (b ≡ true → Returns m)
      → (b ≡ false → Returns n)
      → Returns (if b then m else n)
  Returns-if true m n hm hn = hm refl
  Returns-if false m n hm hn = hn refl

  pub Returns-option {κ} :
      {B : Type κ} (o : Option B) (m : Checked A) (f : B → Checked A)
      → (o ≡ none → Returns m)
      → ((b : B) → o ≡ some b → Returns (f b))
      → Returns (elim o [ none ↦ m | some b ↦ f b ])
  Returns-option none m f hm hf = hm refl
  Returns-option (some b) m f hm hf = hf b refl

-- One step of a computed run, with its outcome known.
module _ {ℓ κ} {A : Type ℓ} {B : Type κ} where
  pub >>=-done :
      (m : Checked A) (f : A → Checked B) {a : A} {r : Checked B}
      → m ≡ done a
      → f a ≡ r
      → (m >>= f) ≡ r
  >>=-done (done x) f e h = ap (λ y. y >>= f) e ∙ h
  >>=-done panic f e h = cc

  pub elim-some :
      (o : Option A) (m : B) (f : A → B) {a : A} {r : B}
      → o ≡ some a
      → f a ≡ r
      → elim o [ none ↦ m | some x ↦ f x ] ≡ r
  elim-some none m f e h = cc
  elim-some (some x) m f e h = ap (λ (y : Option A). elim y [ none ↦ m | some x ↦ f x ]) e ∙ h

module _ {ℓ} {A : Type ℓ} where
  pub if-false : (b : Bool) (m n : A) {r : A} → b ≡ false → n ≡ r → (if b then m else n) ≡ r
  if-false false m n e h = h
  if-false true m n e h = cc

  pub if-true : (b : Bool) (m n : A) {r : A} → b ≡ true → m ≡ r → (if b then m else n) ≡ r
  if-true true m n e h = h
  if-true false m n e h = cc

-- What holds after an error and after a value holds of the branch on both.
pub by_result {ℓ κ ν μ} :
    {E : Type ℓ} {A : Type κ} {B : Type ν} (P : B → Type μ) (r : Result E A) (f : E → B) (g : A → B)
    → ((e : E) → P (f e))
    → ((a : A) → P (g a))
    → P (elim r [ err e ↦ f e | ok a ↦ g a ])
by_result P (ok a) f g h k = k a
by_result P (err e) f g h k = h e
