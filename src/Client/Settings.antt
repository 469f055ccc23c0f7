-- ===== src/Client/Settings.antt =====
-- The form of crates/client/src/ui/settings.rs, with the file that its button writes. How writing ends
-- is an argument. The drawing, and the test of the port, which is only logged, are left out.
use war3_battle_tool.Prelude.{
  ℕ, String, Bool, true, false, Option, some, List, [], ◌∷◌, if◌then◌else◌, ◌≡◌, ◌≤◌, refl, arith,
  All, ◌==◌, not, ap, min, max, by_if, ◌∙◌,
}
use war3_battle_tool.Protocol.War3.{War3Version, version_eq, version_beq_iff}
use war3_battle_tool.Client.Config.{AppConfig, load, normalize}

record Form : Type 0 where
  config : AppConfig
  config_changed : Bool
  file : Option AppConfig

-- How `save` ends: a write that fails may leave anything in the file.
data Save : Type 0 where
  written : Save
  failed : Option AppConfig → Save

data Input : Type 0 where
  edit_nickname : String → Input
  choose_version : War3Version → Input
  edit_server_url : String → Input
  slide : ℕ → Input
  save : Save → Input

abbrev saved : Save → Form → Form
saved written f = record f { file = some f.config; config_changed = false }
saved (failed left) f = record f { file = left }

-- One frame: the fields, and the button, which is there while something has changed.
unfoldable show : Input → Form → Form
show (edit_nickname s) f = record f {
  config = record (f.config) { nickname = s };
  config_changed = true;
}
show (choose_version v) f = record f {
  config = record (f.config) { war3_version = v };
  config_changed = if not (v == f.config.war3_version) then true else f.config_changed;
}
show (edit_server_url s) f = record f {
  config = record (f.config) { server_url = s };
  config_changed = true;
}
show (slide n) f = record f {
  config = record (f.config) { log_buffer_size = n };
  config_changed = true;
}
show (save ends) f = if f.config_changed then saved ends f else f

unfoldable run : List Input → Form → Form
unfolding show
run [] f = f
run (i ∷ inputs) f = run inputs (show i f)

-- The form of a program that starts with this file.
abbrev start : String → Option AppConfig → Form
start server_url file = record {
  config = load server_url file;
  config_changed = false;
  file = file;
}

-- The slider stays within its ends.
abbrev IsOnSlider : Input → Type 0
IsOnSlider (slide n) = (1000 ≤ n) × (n ≤ 5000)
IsOnSlider _ = Unit

module _ (server_url : String) where
  record IsKept (f : Form) : Type 0 where
    low : 1000 ≤ f.config.log_buffer_size
    high : f.config.log_buffer_size ≤ 5000
    kept : f.config_changed ≡ false → load server_url f.file ≡ f.config

  load-range :
      (file : Option AppConfig)
      → (1000 ≤ (load server_url file).log_buffer_size)
        × ((load server_url file).log_buffer_size ≤ 5000)
  unfolding load normalize
  load-range file = ground arith

  load-saved :
      (c : AppConfig)
      → 1000 ≤ c.log_buffer_size
      → c.log_buffer_size ≤ 5000
      → load server_url (some c) ≡ c
  unfolding load normalize
  load-saved c low high =
      let size : min (max c.log_buffer_size 1000) 5000 ≡ c.log_buffer_size = ground arith in
      ap (λ n. record c { log_buffer_size = n }) size

  saved-IsKept :
      (ends : Save) (f : Form) → f.config_changed ≡ true → IsKept f → IsKept (saved ends f)
  saved-IsKept written f changed k = record {
    low = k.low;
    high = k.high;
    kept = λ h. load-saved f.config k.low k.high;
  }
  saved-IsKept (failed left) f changed k = record { low = k.low; high = k.high; kept = λ h. cc }

  show-IsKept : (i : Input) (f : Form) → IsOnSlider i → IsKept f → IsKept (show i f)
  unfolding show
  show-IsKept (edit_nickname s) f fits k = record { low = k.low; high = k.high; kept = λ h. cc }
  show-IsKept (choose_version v) f fits k = record {
    low = k.low;
    high = k.high;
    kept = λ h.
        let same : f.config.war3_version ≡ v =
          ground (arith, version_beq_iff v f.config.war3_version) in
        k.kept (ground arith) ∙ ap (λ w. record (f.config) { war3_version = w }) same;
  }
  show-IsKept (edit_server_url s) f fits k = record { low = k.low; high = k.high; kept = λ h. cc }
  show-IsKept (slide n) f fits k = record { low = fits.0; high = fits.1; kept = λ h. cc }
  show-IsKept (save ends) f fits k =
      by_if IsKept f.config_changed (saved ends f) f (λ changed. saved-IsKept ends f changed k)
        (λ _. k)

  run-IsKept :
      (inputs : List Input) (f : Form) → All IsOnSlider inputs → IsKept f → IsKept (run inputs f)
  unfolding run
  run-IsKept [] f fits k = k
  run-IsKept (i ∷ inputs) f fits k = run-IsKept inputs (show i f) fits.1 (show-IsKept i f fits.0 k)

  -- Whatever the file holds at the start, whatever is done with the form, and however its writes end:
  -- while the form does not say that something has changed, the next start of the program loads the
  -- settings that are in use.
  settings-load :
      (inputs : List Input) (file : Option AppConfig)
      → All IsOnSlider inputs
      → (run inputs (start server_url file)).config_changed ≡ false
      → load server_url (run inputs (start server_url file)).file
        ≡ (run inputs (start server_url file)).config
  settings-load inputs file fits h =
      (run-IsKept inputs (start server_url file) fits
          (record { low = (load-range file).0; high = (load-range file).1; kept = λ h. refl })).kept
        h
