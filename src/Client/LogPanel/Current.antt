-- ===== src/Client/LogPanel/Current.antt =====
-- The indices that the panel keeps are those of the entries that pass its filter.
use mathlib.Core.List.{append-nil}
use war3_battle_tool.Prelude.{
  ℕ, ◌+◌, ◌-◌, ◌≤◌, ◌≡◌, refl, sym, ap, ◌∙◌, Bool, true, false, List, [], ◌∷◌, ◌++◌, length,
  length-append, arith, if◌then◌else◌, by_if, ◌==◌, nat_eq,
}
use war3_battle_tool.Client.LogPanel.{
  LogPanel, LogEntry, new, rank, entry_passes_filter, passing, rebuild_filtered_indices, evict,
  push, clear, select_verbosity, open_search, edit_search, close_search, Action, pushes, clears,
  selects, opens, edits, shuts, act, run,
}

pub record IsCurrent (p : LogPanel) : Type 0 where
  pub indices : p.filtered_indices ≡ passing (entry_passes_filter p) 0 p.entries
  pub bounded : length p.entries ≤ p.max_entries
  pub ranged : (1000 ≤ p.max_entries) × (p.max_entries ≤ 5000)

passing-append :
    (passes : LogEntry → Bool) (i : ℕ) (entries : List LogEntry) (entry : LogEntry)
    → passing passes i (entries ++ entry ∷ [])
      ≡ passing passes i entries ++ (if passes entry then (i + length entries) ∷ [] else [])
unfolding passing
passing-append passes i [] entry = ground arith
passing-append passes i (e ∷ entries) entry =
    let later = passing-append passes (i + 1) entries entry in
    let place : (i + 1) + length entries ≡ i + (length entries + 1) = omega arith in
    ground (arith, later, ap (λ n. if passes entry then n ∷ [] else []) place)

evict-length : (m : ℕ) (entries : List LogEntry) → length (evict m entries).0 ≤ m
unfolding evict
evict-length m [] = omega arith
evict-length m (e ∷ entries) = ground (arith, evict-length m entries)

evict-kept :
    (m : ℕ) (entries : List LogEntry) → (evict m entries).1 ≡ false → (evict m entries).0 ≡ entries
unfolding evict
evict-kept m [] h = refl
evict-kept m (e ∷ entries) h = ground arith

rebuilt-IsCurrent :
    (p : LogPanel)
    → length p.entries ≤ p.max_entries
    → (1000 ≤ p.max_entries) × (p.max_entries ≤ 5000)
    → IsCurrent (rebuild_filtered_indices p)
unfolding rebuild_filtered_indices entry_passes_filter
rebuilt-IsCurrent p bounded ranged = record { indices = refl; bounded = bounded; ranged = ranged }

module _ (entry : LogEntry) (p : LogPanel) (c : IsCurrent p) where
  abbrev kept : List LogEntry × Bool
  kept = evict p.max_entries (p.entries ++ entry ∷ [])

  -- Nothing was evicted: the new entry is the last.
  kept_indices :
      kept.1 ≡ false
      → passing (entry_passes_filter p) 0 kept.0
        ≡ p.filtered_indices
          ++ (if entry_passes_filter p entry then (length kept.0 - 1) ∷ [] else [])
  kept_indices whole =
      let same = evict-kept p.max_entries (p.entries ++ entry ∷ []) whole in
      let place : length kept.0 - 1 ≡ 0 + length p.entries =
        omega (arith, ap length same, length-append p.entries (entry ∷ [])) in
      ap (passing (entry_passes_filter p) 0) same
      ∙ passing-append (entry_passes_filter p) 0 p.entries entry
      ∙ ap (λ l. l ++ (if entry_passes_filter p entry then (0 + length p.entries) ∷ [] else []))
          (sym c.indices)
      ∙ ap (λ n. p.filtered_indices ++ (if entry_passes_filter p entry then n ∷ [] else []))
          (sym place)

  bounded_kept : length kept.0 ≤ p.max_entries
  bounded_kept = evict-length p.max_entries (p.entries ++ entry ∷ [])

  appended-IsCurrent :
      kept.1 ≡ false
      → entry_passes_filter p entry ≡ true
      → IsCurrent (record p {
        entries = kept.0;
        filtered_indices = p.filtered_indices ++ (length kept.0 - 1) ∷ [];
      })
  unfolding entry_passes_filter
  appended-IsCurrent whole passes = record {
    indices = sym (
        kept_indices whole
        ∙ ap (λ b. p.filtered_indices ++ (if b then (length kept.0 - 1) ∷ [] else [])) passes);
    bounded = bounded_kept;
    ranged = c.ranged;
  }

  dropped-IsCurrent :
      kept.1 ≡ false
      → entry_passes_filter p entry ≡ false
      → IsCurrent (record p { entries = kept.0 })
  unfolding entry_passes_filter
  dropped-IsCurrent whole passes = record {
    indices = sym (
        kept_indices whole
        ∙ ap (λ b. p.filtered_indices ++ (if b then (length kept.0 - 1) ∷ [] else [])) passes
        ∙ append-nil p.filtered_indices);
    bounded = bounded_kept;
    ranged = c.ranged;
  }

  push-IsCurrent : IsCurrent (push entry p)
  unfolding push
  push-IsCurrent =
      by_if IsCurrent kept.1 _ _
        (λ evicted. rebuilt-IsCurrent (record p { entries = kept.0 }) bounded_kept c.ranged)
        (λ whole.
          by_if IsCurrent (entry_passes_filter p entry) _ _ (appended-IsCurrent whole)
            (dropped-IsCurrent whole))

act-IsCurrent : (a : Action) (p : LogPanel) → IsCurrent p → IsCurrent (act a p)
unfolding act clear select_verbosity open_search edit_search close_search passing
    entry_passes_filter
act-IsCurrent (pushes entry) p c = push-IsCurrent entry p c
act-IsCurrent clears p c = record { indices = refl; bounded = omega arith; ranged = c.ranged }
act-IsCurrent (selects v) p c =
    by_if IsCurrent (rank p.verbosity_filter == rank v) _ _ (λ same. c)
      (λ new. rebuilt-IsCurrent (record p { verbosity_filter = v }) c.bounded c.ranged)
act-IsCurrent opens p c = record { indices = c.indices; bounded = c.bounded; ranged = c.ranged }
act-IsCurrent (edits query) p c =
    rebuilt-IsCurrent (record p { search_query = query }) c.bounded c.ranged
act-IsCurrent shuts p c =
    rebuilt-IsCurrent (record p { search_active = false; search_query = "" }) c.bounded c.ranged

run-keeps : (actions : List Action) (p : LogPanel) → IsCurrent p → IsCurrent (run actions p)
unfolding run
run-keeps [] p c = c
run-keeps (a ∷ actions) p c = run-keeps actions (act a p) (act-IsCurrent a p c)

-- Whatever is logged, filtered and searched for, in a panel of any requested size: the indices that
-- it keeps by appending are those of the entries that pass the filter, in order; and it holds no
-- more entries than its limit, which is from 1000 to 5000.
pub run-IsCurrent : (size : ℕ) (actions : List Action) → IsCurrent (run actions (new size))
unfolding passing
run-IsCurrent size actions =
    run-keeps actions (new size)
      (record { indices = refl; bounded = omega arith; ranged = (omega arith, omega arith) })
