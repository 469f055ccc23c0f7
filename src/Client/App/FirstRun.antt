-- ===== src/Client/App/FirstRun.antt =====
-- The wizard of the first run, and the settings that `update` of crates/client/src/app.rs takes from it.
use war3_battle_tool.Prelude.{◌≡◌, List, true, refl, not, ap, ◌∙◌}
use war3_battle_tool.Client.Config.{is_configured}
use war3_battle_tool.Client.App.{War3App, ConnectionState, send_register}
use war3_battle_tool.Client.App.Frame.{in_wizard, wizard_done, register_if_connected}
use war3_battle_tool.Client.Wizard as Wizard
use war3_battle_tool.Client.Wizard.{Input, new, run-nickname}

registered_config :
    (c : ConnectionState) (a : War3App) → (register_if_connected c a).config ≡ a.config
unfolding send_register
registered_config ConnectionState.connected a = refl
registered_config ConnectionState.disconnected a = refl
registered_config (ConnectionState.reconnecting n) a = refl

-- Where the wizard has come to its end, the app is configured.
first_run_configures :
    (inputs : List Input) (a : War3App)
    → (Wizard.run inputs new).done ≡ true
    → let w = Wizard.run inputs new in
      is_configured (in_wizard (wizard_done w.nickname w.war3_version) a).config ≡ true
unfolding in_wizard is_configured
first_run_configures inputs a h =
    ap is_configured (registered_config a.connection_state _)
    ∙ ap not (run-nickname inputs new refl h)
