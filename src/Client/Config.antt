-- ===== src/Client/Config.antt =====
-- crates/client/src/config.rs: the settings. What the file holds is an argument: the settings that are
-- read from it, or nothing where there is no file or serde cannot parse it.
use war3_battle_tool.Prelude.{ℕ, String, Bool, Option, not}
use mathlib.Core.Option
use war3_battle_tool.Protocol.Messages.{is_blank}
use war3_battle_tool.Protocol.War3.{War3Version, v127}
use war3_battle_tool.Client.LogPanel.{log_buffer_min, log_buffer_max, clamp}

pub record AppConfig : Type 0 where
  pub nickname : String
  pub war3_version : War3Version
  pub server_url : String
  pub log_buffer_size : ℕ

abbrev log_buffer_default : ℕ
log_buffer_default = 2000

-- `AppConfig::default`, given the address that it takes from the environment or from the code.
abbrev default_config : String → AppConfig
default_config server_url = record {
  nickname = "";
  war3_version = v127;
  server_url = server_url;
  log_buffer_size = log_buffer_default;
}

unfoldable pub normalize : AppConfig → AppConfig
normalize c = record c { log_buffer_size = clamp c.log_buffer_size log_buffer_min log_buffer_max }

unfoldable pub load : String → Option AppConfig → AppConfig
unfolding normalize
load server_url file = normalize (Option.get_or file (default_config server_url))

unfoldable pub is_configured : AppConfig → Bool
is_configured c = not (is_blank c.nickname)
