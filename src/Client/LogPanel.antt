-- ===== src/Client/LogPanel.antt =====
-- `LogPanel` of crates/client/src/ui/log_panel.rs, the ring buffer of log entries with the indices
-- of those that pass the filter, and `LogEntry` of crates/client/src/logging.rs. What the widgets of
-- `show` change is one function for each of them.
pub mod Current
pub mod Shown
use war3_battle_tool.Prelude.{
  ℕ, ◌+◌, ◌-◌, String, Bool, true, false, List, [], ◌∷◌, ◌++◌, not, leb, ltb, min, max, length,
  is_empty, codes, ◌==◌, nat_eq, string_eq, if◌then◌else◌,
}

abbrev pub log_buffer_min : ℕ
log_buffer_min = 1000

abbrev pub log_buffer_max : ℕ
log_buffer_max = 5000

pub data Verbosity : Type 0 where
  concise : Verbosity
  detailed : Verbosity
  full : Verbosity

-- The derived order, by the place in the declaration.
abbrev pub rank : Verbosity → ℕ
rank concise = 0
rank detailed = 1
rank full = 2

pub data LogLevel : Type 0 where
  info : LogLevel
  warn : LogLevel
  error : LogLevel

pub record LogEntry : Type 0 where
  pub timestamp : String
  pub message : String
  pub level : LogLevel
  pub verbosity : Verbosity
  -- the field `module`
  pub target : String

pub record LogPanel : Type 0 where
  pub entries : List LogEntry
  pub filtered_indices : List ℕ
  pub verbosity_filter : Verbosity
  pub search_query : String
  pub search_active : Bool
  pub max_entries : ℕ

-- `n.clamp(lo, hi)`
abbrev pub clamp : ℕ → ℕ → ℕ → ℕ
clamp n lo hi = min (max n lo) hi

abbrev pub new : ℕ → LogPanel
new max_entries = record {
  entries = [];
  filtered_indices = [];
  verbosity_filter = concise;
  search_query = "";
  search_active = false;
  max_entries = clamp max_entries log_buffer_min log_buffer_max;
}

unfoldable pub is_prefix : List ℕ → List ℕ → Bool
is_prefix [] ys = true
is_prefix (x ∷ xs) [] = false
is_prefix (x ∷ xs) (y ∷ ys) = let rest = is_prefix xs ys in if x == y then rest else false

-- `hay.contains(needle)`
unfoldable pub contains : List ℕ → List ℕ → Bool
unfolding is_prefix
contains [] needle = is_prefix needle []
contains (y ∷ hay) needle =
    let rest = contains hay needle in if is_prefix needle (y ∷ hay) then true else rest

unfoldable pub entry_passes_filter : LogPanel → LogEntry → Bool
unfolding contains
entry_passes_filter p entry =
    let passes_verbosity = leb (rank entry.verbosity) (rank p.verbosity_filter) in
    if not passes_verbosity
    then false
    else if not (is_empty (codes p.search_query))
    then contains (codes entry.message) (codes p.search_query)
    else true

-- The indices, from `i` on, of the entries that pass.
unfoldable pub passing : (LogEntry → Bool) → ℕ → List LogEntry → List ℕ
passing passes i [] = []
passing passes i (entry ∷ entries) =
    let rest = passing passes (i + 1) entries in if passes entry then i ∷ rest else rest

unfoldable pub rebuild_filtered_indices : LogPanel → LogPanel
unfolding passing entry_passes_filter
rebuild_filtered_indices p = record p {
  filtered_indices = passing (entry_passes_filter p) 0 p.entries;
}

-- `while entries.len() > max_entries { entries.pop_front(); evicted = true; }`
unfoldable pub evict : ℕ → List LogEntry → List LogEntry × Bool
evict max_entries [] = ([], false)
evict max_entries (entry ∷ entries) =
    let rest = evict max_entries entries in
    if ltb max_entries (length (entry ∷ entries)) then (rest.0, true) else (entry ∷ entries, false)

unfoldable pub push : LogEntry → LogPanel → LogPanel
unfolding evict rebuild_filtered_indices entry_passes_filter
push entry p =
    let passes = entry_passes_filter p entry in
    let (entries, evicted) = evict p.max_entries (p.entries ++ entry ∷ []) in
    let p' : LogPanel = record p { entries = entries } in
    if evicted
    then rebuild_filtered_indices p'
    else if passes
    then record p' { filtered_indices = p.filtered_indices ++ (length entries - 1) ∷ [] }
    else p'

unfoldable pub clear : LogPanel → LogPanel
clear p = record p { entries = []; filtered_indices = [] }

-- A click on a verbosity button that is not the selected one.
unfoldable pub select_verbosity : Verbosity → LogPanel → LogPanel
unfolding rebuild_filtered_indices
select_verbosity v p =
    if rank p.verbosity_filter == rank v
    then p
    else rebuild_filtered_indices (record p { verbosity_filter = v })

-- The search box: opened, changed, and closed.
unfoldable pub open_search : LogPanel → LogPanel
open_search p = record p { search_active = true }

unfoldable pub edit_search : String → LogPanel → LogPanel
unfolding rebuild_filtered_indices
edit_search query p = rebuild_filtered_indices (record p { search_query = query })

unfoldable pub close_search : LogPanel → LogPanel
unfolding rebuild_filtered_indices
close_search p = rebuild_filtered_indices (record p { search_active = false; search_query = "" })

-- What may happen to a panel.
pub data Action : Type 0 where
  pushes : LogEntry → Action
  clears : Action
  selects : Verbosity → Action
  opens : Action
  edits : String → Action
  shuts : Action

unfoldable pub act : Action → LogPanel → LogPanel
unfolding push clear select_verbosity open_search edit_search close_search
act (pushes entry) p = push entry p
act clears p = clear p
act (selects v) p = select_verbosity v p
act opens p = open_search p
act (edits query) p = edit_search query p
act shuts p = close_search p

unfoldable pub run : List Action → LogPanel → LogPanel
unfolding act
run [] p = p
run (a ∷ actions) p = run actions (act a p)
