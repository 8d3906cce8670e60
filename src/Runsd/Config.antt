-- ===== src/Runsd/Config.antt =====
-- crates/runsd/src/config.rs: the settings of the daemon and where they come from, on Unix.
use ensurer_v.Prelude.{
  ℕ, ◌≡◌, refl, String, Bool, true, Option, none, some, Result, join_path, if◌then◌else◌,
}

pub record ServerConfig : Type 0 where
  pub data_dir : String
  pub socket_path : String
  pub port : ℕ  -- u16
  pub max_concurrent_calculations : ℕ  -- usize

pub record RetryConfig : Type 0 where
  pub base_delay_ms : ℕ
  pub max_delay_ms : ℕ
  pub max_attempts : ℕ

pub record LeaseConfig : Type 0 where
  pub heartbeat_interval_s : ℕ
  pub expiry_s : ℕ
  pub watchdog_interval_s : ℕ

pub record ExternalApiConfig : Type 0 where
  pub base_url : String
  pub launch_path : String
  pub status_path : String
  pub poll_interval_ms : ℕ
  pub request_timeout_s : ℕ
  pub supports_idempotency : Bool

pub record LoggingConfig : Type 0 where
  pub file_level : String
  pub stderr_level : String
  pub file_path : String
  pub event_retention_days : ℕ

pub record Config : Type 0 where
  pub server : ServerConfig
  pub retry : RetryConfig
  pub lease : LeaseConfig
  pub external_api : ExternalApiConfig
  pub logging : LoggingConfig

abbrev pub default_retry : RetryConfig
default_retry = record { base_delay_ms = 1000; max_delay_ms = 300000; max_attempts = 5 }

abbrev pub default_lease : LeaseConfig
default_lease = record { heartbeat_interval_s = 10; expiry_s = 60; watchdog_interval_s = 30 }

abbrev pub default_external_api : ExternalApiConfig
default_external_api = record {
  base_url = "https://example.com";
  launch_path = "/api/launch-data-points-loading-task-status";
  status_path = "/api/get-data-points-loading-task-status";
  poll_interval_ms = 2000;
  request_timeout_s = 30;
  supports_idempotency = true;
}

-- `std::env::var(..).map(..)` or the other path.
abbrev var_or : Option String → String → String
var_or (some value) other = value
var_or none other = other

-- The variables of the process, and `std::env::temp_dir()`.
module _ (var : String → Option String) (temp_dir : String) where
  unfoldable pub home_dir : String
  home_dir = var_or (var "HOME") "/tmp"

  unfoldable pub xdg_data_home : String
  unfolding home_dir join_path
  xdg_data_home = var_or (var "XDG_DATA_HOME") (join_path home_dir ".local/share")

  unfoldable pub xdg_config_home : String
  unfolding home_dir join_path
  xdg_config_home = var_or (var "XDG_CONFIG_HOME") (join_path home_dir ".config")

  unfoldable pub xdg_state_home : String
  unfolding home_dir join_path
  xdg_state_home = var_or (var "XDG_STATE_HOME") (join_path home_dir ".local/state")

  unfoldable pub xdg_cache_home : String
  unfolding home_dir join_path
  xdg_cache_home = var_or (var "XDG_CACHE_HOME") (join_path home_dir ".cache")

  unfoldable pub xdg_runtime_dir : String
  xdg_runtime_dir = var_or (var "XDG_RUNTIME_DIR") temp_dir

  -- `Config::default`
  unfoldable pub default_config : Config
  unfolding xdg_data_home xdg_runtime_dir xdg_state_home join_path
  default_config = record {
    server = record {
      data_dir = join_path xdg_data_home "runsd";
      socket_path = join_path xdg_runtime_dir "runsd.sock";
      port = 4242;
      max_concurrent_calculations = 8;
    };
    retry = default_retry;
    lease = default_lease;
    external_api = default_external_api;
    logging = record {
      file_level = "info";
      stderr_level = "warn";
      file_path = join_path xdg_state_home "runsd/runsd.log";
      event_retention_days = 30;
    };
  }

-- What `load` takes from figment, on its own type of layered values.
pub record Layers (F : Type 0) : Type 0 where
  pub defaults : Config → F
  pub merge_toml : String → F → F
  pub merge_env : String → String → F → F
  pub extract : F → Result String Config

abbrev chosen : Option String → String → String
chosen none default_path = default_path
chosen (some path) default_path = path

abbrev with_file : {F : Type 0} → Layers F → Bool → String → F → F
with_file layers exists path f = if exists then layers.merge_toml path f else f

module _ (var : String → Option String) (temp_dir : String) (exists : String → Bool) where
  -- `Config::load`: the defaults, under the file if it exists, under the variables.
  unfoldable pub load : {F : Type 0} → Layers F → Option String → Result String Config
  unfolding default_config xdg_config_home join_path
  load layers config_file =
      let path =
        chosen config_file (join_path (xdg_config_home var temp_dir) "runsd/config.toml") in
      layers.extract (
        layers.merge_env "RUNSD_" "_"
          (with_file layers (exists path) path (layers.defaults (default_config var temp_dir))))

default_config_lem :
    (default_config (λ _. none) "/tmp").logging.file_path ≡ "/tmp/.local/state/runsd/runsd.log"
unfolding default_config xdg_state_home home_dir join_path
default_config_lem = refl
