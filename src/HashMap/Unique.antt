-- ===== src/HashMap/Unique.antt =====
-- A map holds each key once, and what follows for counting its values.
use war3_battle_tool.Prelude.{
  ◌+◌, ◌≡◌, refl, ap, Bool, false, Option, none, some, [], ◌∷◌, arith, Eq, if◌then◌else◌, bit,
}
use war3_battle_tool.HashMap.{HashMap, get, remove, insert, modify, retain, count, len}
use war3_battle_tool.HashMap.Laws.{
  get-remove, get-modify, remove-modify, remove_absent, modify_absent, count-insert,
}

-- What is left of a looked up value under a test.
abbrev pub keep_if {κ} : {V : Type κ} → (V → Bool) → Option V → Option V
keep_if p none = none
keep_if p (some v) = if p v then some v else none

-- Whether a looked up value passes a test.
abbrev pub holds {κ} : {V : Type κ} → (V → Bool) → Option V → Bool
holds p none = false
holds p (some v) = p v

module _ {ℓ κ} {K : Type ℓ} {V : Type κ} ⦃e : Eq K⦄ where
  abbrev pub HasUniqueKeys : HashMap K V → Type κ
  HasUniqueKeys [] = Unit
  HasUniqueKeys ((k, v) ∷ m) = (get k m ≡ none) × HasUniqueKeys m

  pub remove-HasUniqueKeys :
      (k : K) (m : HashMap K V) → HasUniqueKeys m → HasUniqueKeys (remove k m)
  unfolding remove
  remove-HasUniqueKeys k [] u = tt
  remove-HasUniqueKeys k ((j, v) ∷ m) u =
      ground (arith, remove-HasUniqueKeys k m u.1, get-remove k j m)

  pub insert-HasUniqueKeys :
      (k : K) (v : V) (m : HashMap K V) → HasUniqueKeys m → HasUniqueKeys (insert k v m)
  unfolding insert
  insert-HasUniqueKeys k v m u =
      (ground (arith, get-remove k k m, e.beq_iff k k), remove-HasUniqueKeys k m u)

  pub modify-HasUniqueKeys :
      (k : K) (f : V → V) (m : HashMap K V) → HasUniqueKeys m → HasUniqueKeys (modify k f m)
  unfolding modify
  modify-HasUniqueKeys k f [] u = tt
  modify-HasUniqueKeys k f ((j, v) ∷ m) u =
      ground (arith, modify-HasUniqueKeys k f m u.1, get-modify k j f m)

  -- The entry of a key, counted apart.
  pub count-split :
      (p : V → Bool) (k : K) (v : V) (m : HashMap K V)
      → HasUniqueKeys m
      → get k m ≡ some v
      → count p m ≡ bit (p v) + count p (remove k m)
  unfolding get remove count
  count-split p k v [] u h = cc
  count-split p k v ((j, w) ∷ m) u h =
      ground (arith, count-split p k v m u.1, remove_absent k m, e.beq_iff j k)

  pub count-remove_absent :
      (p : V → Bool) (k : K) (m : HashMap K V) → get k m ≡ none → count p (remove k m) ≡ count p m
  count-remove_absent p k m h = rw (remove_absent k m h)

  -- Changing one value changes the count by that value.
  pub count-modify :
      (p : V → Bool) (k : K) (f : V → V) (v : V) (m : HashMap K V)
      → HasUniqueKeys m
      → get k m ≡ some v
      → count p (modify k f m) + bit (p v) ≡ count p m + bit (p (f v))
  count-modify p k f v m u h =
      let before : count p m ≡ bit (p v) + count p (remove k m) = count-split p k v m u h in
      let after : count p (modify k f m) ≡ bit (p (f v)) + count p (remove k (modify k f m)) =
        count-split p k (f v) (modify k f m) (modify-HasUniqueKeys k f m u)
          (ground (arith, get-modify k k f m, e.beq_iff k k)) in
      omega (arith, ap (count p) (remove-modify k f m))

  -- Replacing the value of a key.
  pub count-insert_over :
      (p : V → Bool) (k : K) (v w : V) (m : HashMap K V)
      → HasUniqueKeys m
      → get k m ≡ some w
      → count p (insert k v m) + bit (p w) ≡ count p m + bit (p v)
  count-insert_over p k v w m u h = omega (arith, count-insert p k v m, count-split p k w m u h)

  pub get-retain :
      (p : K → V → Bool) (k : K) (m : HashMap K V)
      → HasUniqueKeys m
      → get k (retain p m) ≡ keep_if (p k) (get k m)
  unfolding get retain
  get-retain p k [] u = refl
  get-retain p k ((j, v) ∷ m) u = ground (arith, get-retain p k m u.1, e.beq_iff j k)

  pub len-remove :
      (k : K) (v : V) (m : HashMap K V)
      → HasUniqueKeys m
      → get k m ≡ some v
      → len (remove k m) + 1 ≡ len m
  unfolding get remove
  len-remove k v [] u h = cc
  len-remove k v ((j, w) ∷ m) u h =
      ground (arith, len-remove k v m u.1, remove_absent k m, e.beq_iff j k)

  -- A change that leaves the value of the key as it is.
  pub modify_fixed :
      (k : K) (f : V → V) (m : HashMap K V)
      → HasUniqueKeys m
      → ((v : V) → get k m ≡ some v → f v ≡ v)
      → modify k f m ≡ m
  unfolding get modify
  modify_fixed k f [] u h = refl
  modify_fixed k f ((j, v) ∷ m) u h =
      ground (arith, h v, modify_fixed k f m u.1, modify_absent k f m, e.beq_iff j k, h)
