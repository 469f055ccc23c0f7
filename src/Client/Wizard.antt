-- ===== src/Client/Wizard.antt =====
-- `SetupWizard` of crates/client/src/ui/setup_wizard.rs: a page of notes and a form. The drawing is
-- left out.
use war3_battle_tool.Prelude.{
  String, Bool, true, false, List, [], ◌∷◌, not, if◌then◌else◌, ◌≡◌, arith, Bool-cases, inl, inr,
}
use war3_battle_tool.Protocol.Messages.{is_blank}
use war3_battle_tool.Protocol.War3.{War3Version, v127}

pub data WizardStep : Type 0 where
  info : WizardStep
  setup : WizardStep

pub record SetupWizard : Type 0 where
  pub nickname : String
  pub war3_version : War3Version
  pub done : Bool
  pub step : WizardStep

abbrev pub new : SetupWizard
new = record { nickname = ""; war3_version = v127; done = false; step = info }

pub data Input : Type 0 where
  go_on : Input
  go_back : Input
  start : Input
  edit_nickname : String → Input
  choose_version : War3Version → Input

unfoldable pub show_info : Input → SetupWizard → SetupWizard
show_info go_on w = record w { step = setup }
show_info _ w = w

-- The button that starts is enabled only with a nickname.
unfoldable pub show_setup : Input → SetupWizard → SetupWizard
show_setup (edit_nickname s) w = record w { nickname = s }
show_setup (choose_version v) w = record w { war3_version = v }
show_setup go_back w = record w { step = info }
show_setup start w = if not (is_blank w.nickname) then record w { done = true } else w
show_setup go_on w = w

unfoldable pub show : WizardStep → Input → SetupWizard → SetupWizard
unfolding show_info show_setup
show info i w = show_info i w
show setup i w = show_setup i w

-- The frames, until one ends with the wizard done.
unfoldable pub run : List Input → SetupWizard → SetupWizard
unfolding show
run [] w = w
run (i ∷ inputs) w =
    let w' = show w.step i w in let rest = run inputs w' in if w'.done then w' else rest

-- A wizard that is done has a nickname.
show-nickname :
    (step : WizardStep) (i : Input) (w : SetupWizard)
    → w.done ≡ false
    → (show step i w).done ≡ true
    → is_blank (show step i w).nickname ≡ false
unfolding show
show-nickname info go_on w not_yet h = cc
show-nickname info go_back w not_yet h = cc
show-nickname info start w not_yet h = cc
show-nickname info (edit_nickname s) w not_yet h = cc
show-nickname info (choose_version v) w not_yet h = cc
show-nickname setup go_on w not_yet h = cc
show-nickname setup go_back w not_yet h = cc
show-nickname setup start w not_yet h = ground arith
show-nickname setup (edit_nickname s) w not_yet h = cc
show-nickname setup (choose_version v) w not_yet h = cc

-- Where the wizard comes to its end, its nickname is not blank.
pub run-nickname :
    (inputs : List Input) (w : SetupWizard)
    → w.done ≡ false
    → (run inputs w).done ≡ true
    → is_blank (run inputs w).nickname ≡ false
unfolding run
run-nickname [] w not_yet h = cc
run-nickname (i ∷ inputs) w not_yet h =
    let w' : SetupWizard = show w.step i w in
    elim (Bool-cases w'.done) [
      | inl now ↦ ground (arith, show-nickname w.step i w not_yet now)
      | inr later ↦ ground (arith, run-nickname inputs w' later)
    ]
