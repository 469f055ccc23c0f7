-- ===== src/HashMap/Laws.antt =====
-- What `get` finds after each operation of `HashMap`.
use war3_battle_tool.Prelude.{
  ◌≤◌, ◌+◌, ◌≡◌, refl, Bool, none, some, [], ◌∷◌, arith, Eq, ◌==◌, if◌then◌else◌, bit, Option-cases,
  inl, inr,
}
use war3_battle_tool.HashMap.{HashMap, get, remove, insert, modify, len, count}
use mathlib.Core.Option

module _ {ℓ κ} {K : Type ℓ} {V : Type κ} ⦃e : Eq K⦄ where
  pub get-remove :
      (k j : K) (m : HashMap K V) → get j (remove k m) ≡ (if k == j then none else get j m)
  unfolding get remove
  get-remove k j [] = ground arith
  get-remove k j ((i, v) ∷ m) =
      ground (arith, get-remove k j m, e.beq_iff i k, e.beq_iff i j, e.beq_iff k j)

  pub get-insert :
      (k j : K) (v : V) (m : HashMap K V)
      → get j (insert k v m) ≡ (if k == j then some v else get j m)
  unfolding get insert
  get-insert k j v m = ground (arith, get-remove k j m)

  pub get-modify :
      (k j : K) (f : V → V) (m : HashMap K V)
      → get j (modify k f m) ≡ (if k == j then Option.map f (get j m) else get j m)
  unfolding get modify
  get-modify k j f [] = ground arith
  get-modify k j f ((i, v) ∷ m) =
      ground (arith, get-modify k j f m, e.beq_iff i k, e.beq_iff i j, e.beq_iff k j)

  pub len-remove-le : (k : K) (m : HashMap K V) → len (remove k m) ≤ len m
  unfolding remove
  len-remove-le k [] = omega arith
  len-remove-le k (x ∷ m) = ground (arith, len-remove-le k m)

  pub len-insert-le : (k : K) (v : V) (m : HashMap K V) → len (insert k v m) ≤ len m + 1
  unfolding insert
  len-insert-le k v m = omega (arith, len-remove-le k m)

  pub len-modify : (k : K) (f : V → V) (m : HashMap K V) → len (modify k f m) ≡ len m
  unfolding modify
  len-modify k f [] = refl
  len-modify k f (x ∷ m) = ground (arith, len-modify k f m)

  pub remove_absent : (k : K) (m : HashMap K V) → get k m ≡ none → remove k m ≡ m
  unfolding get remove
  remove_absent k [] h = refl
  remove_absent k (x ∷ m) h = ground (arith, remove_absent k m)

  pub modify_absent : (k : K) (f : V → V) (m : HashMap K V) → get k m ≡ none → modify k f m ≡ m
  unfolding get modify
  modify_absent k f [] h = refl
  modify_absent k f (x ∷ m) h = ground (arith, modify_absent k f m)

  pub remove-modify : (k : K) (f : V → V) (m : HashMap K V) → remove k (modify k f m) ≡ remove k m
  unfolding remove modify
  remove-modify k f [] = refl
  remove-modify k f (x ∷ m) = ground (arith, remove-modify k f m)

  pub count-insert :
      (p : V → Bool) (k : K) (v : V) (m : HashMap K V)
      → count p (insert k v m) ≡ bit (p v) + count p (remove k m)
  unfolding count insert
  count-insert p k v m = refl

pub ruleset map_laws = (get-remove, get-insert, get-modify)

module _ {ℓ κ} {K : Type ℓ} {V : Type κ} ⦃e : Eq K⦄ where
  -- What a lookup in a modified map found before.
  pub modified_before :
      (k j : K) (f : V → V) (m : HashMap K V) (v' : V)
      → get j (modify k f m) ≡ some v'
      → (v : V) × (get j m ≡ some v) × (v' ≡ (if k == j then f v else v))
  modified_before k j f m v' h = elim (Option-cases (get j m)) [
    | inl missing ↦ absurd (ground (arith, get-modify k j f m))
    | inr (v, found) ↦ (v, found, ground (arith, get-modify k j f m))
  ]

  pub modified_after :
      (k j : K) (f : V → V) (m : HashMap K V) (v : V)
      → get j m ≡ some v
      → get j (modify k f m) ≡ some (if k == j then f v else v)
  modified_after k j f m v h = ground (arith, get-modify k j f m)

module _ {ℓ κ} {K : Type ℓ} {V : Type κ} ⦃e : Eq K⦄ where
  pub count-modify_same :
      (p : V → Bool) (k : K) (f : V → V) (m : HashMap K V)
      → ((v : V) → p (f v) ≡ p v)
      → count p (modify k f m) ≡ count p m
  unfolding count modify
  count-modify_same p k f [] h = refl
  count-modify_same p k f ((j, v) ∷ m) h = ground (arith, h v, count-modify_same p k f m h)
