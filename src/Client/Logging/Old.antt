-- ===== src/Client/Logging/Old.antt =====
-- Which files `cleanup_old_logs` of crates/client/src/logging.rs removes.
use mathlib.Core.List.{Perm}
use mathlib.Core.List.Perm
use war3_battle_tool.Prelude.{
  ℕ, ◌-◌, ◌≤◌, ◌≡◌, refl, List, [], ◌∷◌, ◌++◌, All, length, take, drop, leb, arith, by_if, ap, sym,
  ◌∙◌, length-take, zero, suc,
}
use war3_battle_tool.Client.Logging.{LogFile, insert, sort_by_key, cleanup_old_logs, kept_logs}

abbrev Above : LogFile → List LogFile → Type 0
Above f = All (λ g. f.modified ≤ g.modified)

abbrev Sorted : List LogFile → Type 0
Sorted [] = Unit
Sorted (f ∷ files) = Above f files × Sorted files

All-weaken :
    (f g : LogFile) (files : List LogFile) → f.modified ≤ g.modified → Above g files → Above f files
All-weaken f g [] h k = tt
All-weaken f g (x ∷ files) h k = (omega (arith, k.0), All-weaken f g files h k.1)

insert-Above :
    (f g : LogFile) (files : List LogFile)
    → g.modified ≤ f.modified
    → Above g files
    → Above g (insert f files)
unfolding insert
insert-Above f g [] h k = (h, tt)
insert-Above f g (x ∷ files) h k =
    by_if (Above g) (leb f.modified x.modified) _ _ (λ _. (h, k))
      (λ _. (k.0, insert-Above f g files h k.1))

insert-Sorted : (f : LogFile) (files : List LogFile) → Sorted files → Sorted (insert f files)
unfolding insert
insert-Sorted f [] h = (tt, tt)
insert-Sorted f (x ∷ files) h =
    by_if Sorted (leb f.modified x.modified) _ _
      (λ e.
        let below : f.modified ≤ x.modified = ground arith in
        ((below, All-weaken f x files below h.0), h))
      (λ e.
        let above : x.modified ≤ f.modified = ground arith in
        (insert-Above f x files above h.0, insert-Sorted f files h.1))

sort-Sorted : (files : List LogFile) → Sorted (sort_by_key files)
unfolding sort_by_key
sort-Sorted [] = tt
sort-Sorted (f ∷ files) = insert-Sorted f (sort_by_key files) (sort-Sorted files)

insert-perm : (f : LogFile) (files : List LogFile) → Perm (insert f files) (f ∷ files)
unfolding insert
insert-perm f [] = Perm.rfl
insert-perm f (x ∷ files) =
    by_if (λ l. Perm l (f ∷ x ∷ files)) (leb f.modified x.modified) _ _ (λ _. Perm.rfl)
      (λ _. Perm.trans (Perm.cons x (insert-perm f files)) (Perm.swap f x files))

sort-perm : (files : List LogFile) → Perm (sort_by_key files) files
unfolding sort_by_key
sort-perm [] = Perm.rfl
sort-perm (f ∷ files) =
    Perm.trans (insert-perm f (sort_by_key files)) (Perm.cons f (sort-perm files))

-- The first part of a sorted list is below the rest.
abbrev pub NoNewer : List LogFile → List LogFile → Type 0
NoNewer removed kept = All (λ f. All (λ g. f.modified ≤ g.modified) kept) removed

Above-drop : (f : LogFile) (n : ℕ) (files : List LogFile) → Above f files → Above f (drop n files)
Above-drop f zero files h = h
Above-drop f (suc n) [] h = tt
Above-drop f (suc n) (x ∷ files) h = Above-drop f n files h.1

take-NoNewer-drop :
    (n : ℕ) (files : List LogFile) → Sorted files → NoNewer (take n files) (drop n files)
take-NoNewer-drop zero files h = tt
take-NoNewer-drop (suc n) [] h = tt
take-NoNewer-drop (suc n) (x ∷ files) h = (Above-drop x n files h.0, take-NoNewer-drop n files h.1)

take-append-drop : (n : ℕ) (files : List LogFile) → take n files ++ drop n files ≡ files
take-append-drop zero files = refl
take-append-drop (suc n) [] = refl
take-append-drop (suc n) (x ∷ files) = ap (◌∷◌ x) (take-append-drop n files)

-- What the clean-up does: the files are those that it removes and those that stay, at most `keep`
-- stay and it removes none that could stay, and no removed file is newer than one that stays.
pub record IsCleanup (keep : ℕ) (logs removed kept : List LogFile) : Type 0 where
  pub same : Perm (removed ++ kept) logs
  pub count : length removed ≡ length logs - keep
  pub no_newer : NoNewer removed kept

length-insert : (f : LogFile) (files : List LogFile) → length (insert f files) ≡ suc (length files)
unfolding insert
length-insert f [] = refl
length-insert f (x ∷ files) =
    by_if (λ (l : List LogFile). length l ≡ suc (suc (length files))) (leb f.modified x.modified) _
      _ (λ _. refl) (λ _. ap suc (length-insert f files))

length-sort : (files : List LogFile) → length (sort_by_key files) ≡ length files
unfolding sort_by_key
length-sort [] = refl
length-sort (f ∷ files) = length-insert f (sort_by_key files) ∙ ap suc (length-sort files)

cleanup-eq-take :
    (keep : ℕ) (logs : List LogFile)
    → cleanup_old_logs keep logs ≡ take (length logs - keep) (sort_by_key logs)
unfolding cleanup_old_logs
cleanup-eq-take keep logs =
    by_if (λ l. l ≡ take (length logs - keep) (sort_by_key logs)) (leb (length logs) keep) _ _
      (λ e.
        let none_over : length logs - keep ≡ 0 = ground arith in
        ap (λ k. take k (sort_by_key logs)) (sym none_over))
      (λ _. refl)

removed-IsCleanup :
    (keep n : ℕ) (logs : List LogFile)
    → n ≡ length logs - keep
    → IsCleanup keep logs (take n (sort_by_key logs)) (drop n (sort_by_key logs))
removed-IsCleanup keep n logs e = record {
  same = rw (take-append-drop n (sort_by_key logs)) (sort-perm logs);
  count = omega (arith, length-take n (sort_by_key logs), length-sort logs, e);
  no_newer = take-NoNewer-drop n (sort_by_key logs) (sort-Sorted logs);
}

-- For every number of files to keep and every directory: see `IsCleanup`.
cleanup_old_logs-IsCleanup :
    (keep : ℕ) (logs : List LogFile)
    → IsCleanup keep logs (cleanup_old_logs keep logs) (kept_logs keep logs)
cleanup_old_logs-IsCleanup keep logs =
    let n = length logs - keep in
    let taken = cleanup-eq-take keep logs in
    let counted : length (cleanup_old_logs keep logs) ≡ n =
      omega (arith, ap length taken, length-take n (sort_by_key logs), length-sort logs) in
    rw (counted, taken) (removed-IsCleanup keep n logs refl)
