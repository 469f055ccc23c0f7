-- ===== src/Client/Logging.antt =====
-- crates/client/src/logging.rs: what the layer makes of a tracing event, and which log files are
-- removed. Text of an event is a list of code points; the text of an entry is made by `text`.
pub mod Old
use war3_battle_tool.Prelude.{
  ℕ, ◌-◌, String, List, [], ◌∷◌, Option, none, some, Bool, true, false, codes, length, leb, ltb,
  take, drop, if◌then◌else◌,
}
use war3_battle_tool.Server.Origin.{Text, text_beq}
use war3_battle_tool.Client.LogPanel.{
  Verbosity, concise, detailed, full, LogLevel, LogEntry, contains,
}
use war3_battle_tool.Client.ViewerUrl.{strip_prefix}

-- `tracing::Level`
pub data Level : Type 0 where
  error warn info debug trace : Level

pub record VerbosityVisitor : Type 0 where
  pub verbosity : Option Verbosity
  pub message : Text

-- A field of an event, by which of the two methods it is visited.
pub data Field : Type 0 where
  str : Text → Text → Field
  debug_value : Text → Text → Field

unfoldable pub parse_verbosity : Text → Option Verbosity
unfolding text_beq
parse_verbosity value =
    if text_beq value (codes "concise")
    then some concise
    else if text_beq value (codes "detailed")
    then some detailed
    else if text_beq value (codes "full")
    then some full
    else none

unfoldable pub record_field : Field → VerbosityVisitor → VerbosityVisitor
unfolding parse_verbosity text_beq
record_field (str name value) v =
    let v' : VerbosityVisitor =
      if text_beq name (codes "verbosity")
      then record v { verbosity = parse_verbosity value }
      else v in
    if text_beq name (codes "message") then record v' { message = value } else v'
record_field (debug_value name value) v =
    if text_beq name (codes "message") then record v { message = value } else v

unfoldable pub visit : List Field → VerbosityVisitor → VerbosityVisitor
unfolding record_field
visit [] v = v
visit (f ∷ fields) v = visit fields (record_field f v)

unfoldable pub classify_verbosity : Option Verbosity → Level → Option Text → Verbosity
unfolding contains
classify_verbosity field_verbosity warn module_path = concise
classify_verbosity field_verbosity error module_path = concise
classify_verbosity (some v) _ module_path = v
classify_verbosity none _ none = concise
classify_verbosity none _ (some path) = if contains path (codes "::net::") then full else concise

unfoldable pub log_level : Level → LogLevel
log_level error = LogLevel.error
log_level warn = LogLevel.warn
log_level _ = LogLevel.info

abbrev pub or_empty : Option Text → Text
or_empty none = []
or_empty (some t) = t

pub record TracingEvent : Type 0 where
  pub fields : List Field
  pub level : Level
  pub module_path : Option Text

-- The entry that `on_event` sends at the time `timestamp`.
unfoldable pub on_event : (Text → String) → String → TracingEvent → LogEntry
unfolding visit classify_verbosity log_level strip_prefix
on_event text timestamp event =
    let visitor = visit event.fields (record { verbosity = none; message = [] }) in
    let path = or_empty event.module_path in
    record {
      timestamp = timestamp;
      message = text visitor.message;
      level = log_level event.level;
      verbosity = classify_verbosity visitor.verbosity event.level event.module_path;
      target =
          text
            (elim (strip_prefix (codes "war3_client::") path) [ none ↦ path | some rest ↦ rest ]);
    }

-- A log file: when it was modified, and its path.
pub record LogFile : Type 0 where
  pub modified : ℕ
  pub path : String

-- `sort_by_key(|(t, _)| *t)`, which keeps the order of equal times.
unfoldable pub insert : LogFile → List LogFile → List LogFile
insert f [] = f ∷ []
insert f (g ∷ files) =
    let rest = insert f files in if leb f.modified g.modified then f ∷ (g ∷ files) else g ∷ rest

unfoldable pub sort_by_key : List LogFile → List LogFile
unfolding insert
sort_by_key [] = []
sort_by_key (f ∷ files) = insert f (sort_by_key files)

-- The files that `cleanup_old_logs` removes, oldest first, of those that it can read.
unfoldable pub cleanup_old_logs : ℕ → List LogFile → List LogFile
unfolding sort_by_key
cleanup_old_logs keep logs =
    if leb (length logs) keep then [] else take (length logs - keep) (sort_by_key logs)

-- Those that stay.
abbrev pub kept_logs : ℕ → List LogFile → List LogFile
kept_logs keep logs = drop (length (cleanup_old_logs keep logs)) (sort_by_key logs)
