-- ===== src/Client/LogPanel/Shown.antt =====
-- What `LogPanel::show` of crates/client/src/ui/log_panel.rs draws and copies: the entries that it looks
-- up by the indices that it keeps. Colours and layout are left out.
use mathlib.Core.List.{append_assoc}
use war3_battle_tool.Prelude.{
  ℕ, ◌+◌, ◌≡◌, refl, sym, ap, ◌∙◌, Bool, Option, none, some, List, [], ◌∷◌, ◌++◌, map, filter,
  length, length-append, get_elem?, arith, codes,
}
use war3_battle_tool.Client.LogPanel.{
  LogPanel, LogEntry, new, entry_passes_filter, passing, Action, run,
}
use war3_battle_tool.Client.LogPanel.Current.{run-IsCurrent}

abbrev keep : Option LogEntry → List LogEntry → List LogEntry
keep none entries = entries
keep (some entry) entries = entry ∷ entries

-- `filtered_indices.iter().filter_map(|&i| self.entries.get(i))`
unfoldable looked_up : List LogEntry → List ℕ → List LogEntry
looked_up entries [] = []
looked_up entries (i ∷ indices) = keep (get_elem? entries i) (looked_up entries indices)

-- `format!("{} {}", e.timestamp, e.message)`, as code points.
abbrev line : LogEntry → List ℕ
line entry = codes entry.timestamp ++ 32 ∷ codes entry.message

-- `join("\n")`
abbrev join_lines : List (List ℕ) → List ℕ
join_lines [] = []
join_lines (l ∷ []) = l
join_lines (l ∷ m ∷ lines) = l ++ 10 ∷ join_lines (m ∷ lines)

-- The button that copies all.
unfoldable copied_text : LogPanel → List ℕ
unfolding looked_up
copied_text p = join_lines (map line (looked_up p.entries p.filtered_indices))

get_elem-append :
    (before after : List LogEntry) (entry : LogEntry)
    → get_elem? (before ++ entry ∷ after) (length before) ≡ some entry
get_elem-append [] after entry = refl
get_elem-append (e ∷ before) after entry = get_elem-append before after entry

looked_up-passing :
    (passes : LogEntry → Bool) (before after : List LogEntry)
    → looked_up (before ++ after) (passing passes (length before) after) ≡ filter passes after
unfolding looked_up passing
looked_up-passing passes before [] = refl
looked_up-passing passes before (entry ∷ after) =
    let entries = before ++ entry ∷ after in
    let place : length (before ++ entry ∷ []) ≡ length before + 1 =
      length-append before (entry ∷ []) in
    let rest : looked_up entries (passing passes (length before + 1) after) ≡ filter passes after =
      ap (λ n. looked_up entries (passing passes n after)) (sym place)
      ∙ ap (λ l. looked_up l (passing passes (length (before ++ entry ∷ [])) after))
          (sym (append_assoc before (entry ∷ []) after))
      ∙ looked_up-passing passes (before ++ entry ∷ []) after in
    ground (arith, rest, get_elem-append before after entry)

-- Whatever is logged, filtered and searched for: what the button copies is the lines of the entries that
-- pass the filter, all of them and in order.
copied_text-run :
    (size : ℕ) (actions : List Action)
    → let p = run actions (new size) in
      copied_text p ≡ join_lines (map line (filter (entry_passes_filter p) p.entries))
unfolding copied_text
copied_text-run size actions =
    let p = run actions (new size) in
    ap (λ indices. join_lines (map line (looked_up p.entries indices)))
      (run-IsCurrent size actions).indices
    ∙ ap (λ entries. join_lines (map line entries))
        (looked_up-passing (entry_passes_filter p) [] p.entries)
