-- ===== src/Client/ViewerUrl/Parts.antt =====
-- The part of the server's URL that `web_viewer_base_url` of crates/client/src/ui/lobby.rs keeps.
use war3_battle_tool.Prelude.{
  ℕ, [], ◌∷◌, ◌++◌, Bool, true, false, ap, sym, ◌∙◌, subst, ◌≡◌, ◌≢◌, ◌⊎◌, inl, inr, refl, arith,
  ◌==◌, nat_eq, if◌then◌else◌, by_if, All,
}
use mathlib.Core.List.{append_assoc, append-nil}
use war3_battle_tool.Client.ViewerUrl.{
  Text, slash, is_query, before_first, after_last_at, host_port,
}

-- A character that may stand in a host and port.
abbrev pub IsPlain : ℕ → Type 0
IsPlain c = (c ≢ b'/') × (c ≢ b'?') × (c ≢ b'#') × (c ≢ b'@')

abbrev pub AllPlain : Text → Type 0
AllPlain = All IsPlain

-- A character that ends the part with user and host.
abbrev pub IsEnd : ℕ → Type 0
IsEnd c = (c ≡ b'/') ⊎ ((c ≡ b'?') ⊎ (c ≡ b'#'))

-- What may stand in that part.
abbrev pub IsInner : ℕ → Type 0
IsInner c = (c ≢ b'/') × (c ≢ b'?') × (c ≢ b'#')

abbrev pub EndsAt : Text → Type 0
EndsAt tail = (tail ≡ []) ⊎ ((c : ℕ) × (cs : Text) × (tail ≡ c ∷ cs) × IsEnd c)

abbrev pub IsUser : Text → Type 0
IsUser user = (user ≡ []) ⊎ ((name : Text) × (user ≡ name ++ b'@' ∷ []))

-- The host and port of what follows the scheme: after the last `@` of the part up to the first of `/`,
-- `?` and `#`.
pub record HostOf (rest host : Text) : Type 0 where
  pub user : Text
  pub tail : Text
  pub split : rest ≡ user ++ host ++ tail
  pub user_ends : IsUser user
  pub user_inner : All IsInner user
  pub plain : AllPlain host
  pub tail_starts : EndsAt tail

before_first-All :
    (P : ℕ → Type 0) (test : ℕ → Bool) (s : Text)
    → All P s
    → All (λ c. P c × (test c ≡ false)) (before_first test s)
unfolding before_first
before_first-All P test [] h = tt
before_first-All P test (c ∷ s) h =
    by_if (All (λ c. P c × (test c ≡ false))) (test c) _ _ (λ _. tt)
      (λ e. ((h.0, e), before_first-All P test s h.1))

All-append : (P : ℕ → Type 0) (xs ys : Text) → All P xs → All P ys → All P (xs ++ ys)
All-append P [] ys h k = k
All-append P (x ∷ xs) ys h k = (h.0, All-append P xs ys h.1 k)

All-true : (s : Text) → All (λ c. Unit {0}) s
All-true [] = tt
All-true (c ∷ s) = (tt, All-true s)

All-map : (P Q : ℕ → Type 0) (f : (c : ℕ) → P c → Q c) (s : Text) → All P s → All Q s
All-map P Q f [] h = tt
All-map P Q f (c ∷ s) h = (f c h.0, All-map P Q f s h.1)

abbrev NotAt : (ℕ → Type 0) → ℕ → Type 0
NotAt P c = P c × (c ≢ b'@')

after_last_at-All :
    (P : ℕ → Type 0) (seen s : Text)
    → All (NotAt P) seen
    → All P s
    → All (NotAt P) (after_last_at seen s)
unfolding after_last_at
after_last_at-All P seen [] h k = h
after_last_at-All P seen (c ∷ s) h k =
    after_last_at-All P (if c == b'@' then [] else seen ++ c ∷ []) s
      (by_if (All (NotAt P)) (c == b'@') [] (seen ++ c ∷ []) (λ _. tt)
        (λ e.
          let other : c ≢ b'@' = ground arith in
          All-append (NotAt P) seen (c ∷ []) h ((k.0, other), tt)))
      k.1

abbrev Outer : ℕ → Type 0
Outer c = Unit {0} × ((c == slash) ≡ false)

abbrev Inner : ℕ → Type 0
Inner c = Outer c × (is_query c ≡ false)

plain : (c : ℕ) → NotAt Inner c → IsPlain c
plain c h =
    let s : (c == slash) ≡ false = h.0.0.1 in
    let q : is_query c ≡ false = h.0.1 in (ground arith, ground arith, ground arith, h.1)

host_port-AllPlain : (rest : Text) → AllPlain (host_port rest)
unfolding host_port
host_port-AllPlain rest = All-map (NotAt Inner) IsPlain plain (host_port rest) (
    after_last_at-All Inner [] (before_first is_query (before_first (λ c. c == slash) rest)) tt (
      before_first-All Outer is_query (before_first (λ c. c == slash) rest)
        (before_first-All (λ c. Unit {0}) (λ c. c == slash) rest (All-true rest))))

-- The rest after the first part.
before_first-split :
    (test : ℕ → Bool) (s : Text)
    → (tail : Text) × (s ≡ before_first test s ++ tail)
      × ((tail ≡ []) ⊎ ((c : ℕ) × (cs : Text) × (tail ≡ c ∷ cs) × (test c ≡ true)))
unfolding before_first
before_first-split test [] = ([], refl, inl refl)
before_first-split test (c ∷ s) =
    by_if
      (λ (b : Text).
        (tail : Text) × (c ∷ s ≡ b ++ tail)
        × ((tail ≡ []) ⊎ ((d : ℕ) × (cs : Text) × (tail ≡ d ∷ cs) × (test d ≡ true))))
      (test c) [] (c ∷ before_first test s) (λ h. (c ∷ s, refl, inr (c, s, refl, h)))
      (λ h.
        let (tail, split, starts) = before_first-split test s in
        (tail, ap (λ t. c ∷ t) split, starts))

-- A user before another one.
append-IsUser : (seen user : Text) → IsUser user → IsUser (seen ++ b'@' ∷ user)
append-IsUser seen user (inl e) = inr (seen, ap (λ u. seen ++ b'@' ∷ u) e)
append-IsUser seen user (inr (name, e)) = inr (
  seen ++ b'@' ∷ name,
  ap (λ u. seen ++ b'@' ∷ u) e ∙ sym (append_assoc seen (b'@' ∷ name) (b'@' ∷ [])),
)

after_last_at-split :
    (seen s : Text) → (user : Text) × (seen ++ s ≡ user ++ after_last_at seen s) × IsUser user
unfolding after_last_at
after_last_at-split seen [] = ([], append-nil seen, inl refl)
after_last_at-split seen (c ∷ s) =
    by_if
      (λ (next : Text).
        (user : Text) × (seen ++ c ∷ s ≡ user ++ after_last_at next s) × IsUser user)
      (c == b'@') [] (seen ++ c ∷ [])
      (λ h.
        let (user, split, ends) = after_last_at-split [] s in
        let at : c ≡ b'@' = ground arith in
        (
          seen ++ b'@' ∷ user,
          ap (λ d. seen ++ d ∷ s) at
              ∙ ap (λ t. seen ++ b'@' ∷ t) split
              ∙ sym (append_assoc seen (b'@' ∷ user) (after_last_at [] s)),
          append-IsUser seen user ends,
        ))
      (λ h.
        let (user, split, ends) = after_last_at-split (seen ++ c ∷ []) s in
        (user, sym (append_assoc seen (c ∷ []) s) ∙ split, ends))

All-left : (P : ℕ → Type 0) (xs ys : Text) → All P (xs ++ ys) → All P xs
All-left P [] ys h = tt
All-left P (x ∷ xs) ys h = (h.0, All-left P xs ys h.1)

inner : (c : ℕ) → Inner c → IsInner c
inner c h =
    let s : (c == slash) ≡ false = h.0.1 in
    let q : is_query c ≡ false = h.1 in (ground arith, ground arith, ground arith)

abbrev authority : Text → Text
authority rest = before_first is_query (before_first (λ c. c == slash) rest)

authority-All : (rest : Text) → All Inner (authority rest)
authority-All rest =
    before_first-All Outer is_query (before_first (λ c. c == slash) rest)
      (before_first-All (λ c. Unit {0}) (λ c. c == slash) rest (All-true rest))

-- What follows the part with user and host.
authority-split : (rest : Text) → (tail : Text) × (rest ≡ authority rest ++ tail) × EndsAt tail
authority-split rest =
    let a = before_first (λ c. c == slash) rest in
    let (t1, split1, starts1) = before_first-split (λ c. c == slash) rest in
    let (t2, split2, starts2) = before_first-split is_query a in
    (
      t2 ++ t1,
      split1 ∙ ap (λ t. t ++ t1) split2 ∙ append_assoc (authority rest) t2 t1,
      both t1 t2 starts1 starts2,
    )
  where
    both :
        (t1 t2 : Text)
        → ((t1 ≡ []) ⊎ ((c : ℕ) × (cs : Text) × (t1 ≡ c ∷ cs) × ((c == slash) ≡ true)))
        → ((t2 ≡ []) ⊎ ((c : ℕ) × (cs : Text) × (t2 ≡ c ∷ cs) × (is_query c ≡ true)))
        → EndsAt (t2 ++ t1)
    both t1 t2 h (inr (c, cs, e, q)) = inr (c, cs ++ t1, ap (λ t. t ++ t1) e, inr (query c q))
      where
        query : (d : ℕ) → is_query d ≡ true → (d ≡ b'?') ⊎ (d ≡ b'#')
        query d k = ground arith
    both t1 t2 (inl e) (inl e') = inl (rw (e, e') refl)
    both t1 t2 (inr (c, cs, e, q)) (inl e') =
        inr (c, cs, ap (λ t. t ++ t1) e' ∙ e, inl (ground arith))

pub host_port-HostOf : (rest : Text) → HostOf rest (host_port rest)
unfolding host_port
host_port-HostOf rest =
    let (tail, split, starts) = authority-split rest in
    let (user, mine, ends) = after_last_at-split [] (authority rest) in
    record {
      user = user;
      tail = tail;
      split = split ∙ ap (λ t. t ++ tail) mine;
      user_ends = ends;
      user_inner = All-map Inner IsInner inner user (
          All-left Inner user (after_last_at [] (authority rest))
            (subst (All Inner) mine (authority-All rest)));
      plain = host_port-AllPlain rest;
      tail_starts = starts;
    }
