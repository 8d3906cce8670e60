-- ===== src/Runs/Config.antt =====
-- crates/runs/src/config.rs: the settings of the terminal client on Unix, and where they are read.
use ensurer_v.Prelude.{
  ℕ, String, Bool, true, Option, none, some, Result, ok, err, join_path, ◌≡◌, refl, if◌then◌else◌,
}

pub record RunsConfig : Type 0 where
  pub socket_path : Option String
  pub page_size : ℕ  -- u32

unfoldable pub default_runs_config : RunsConfig
default_runs_config = record { socket_path = none; page_size = 100 }

-- What `load` takes from figment, on its own type of layered values.
pub record Sources (F : Type 0) : Type 0 where
  pub defaults : RunsConfig → F
  pub merge_toml : String → F → F
  pub merge_env : String → String → F → F
  pub extract : F → Result String RunsConfig

module _ (var : String → Option String) (exists : String → Bool) where
  abbrev home_config : Option String → String
  home_config none = "/tmp/runs-config.toml"
  home_config (some home) = join_path home ".config/runs/config.toml"

  abbrev config_in : Option String → String
  config_in none = home_config (var "HOME")
  config_in (some dir) = join_path dir "runs/config.toml"

  unfoldable pub config_path : String
  unfolding join_path
  config_path = config_in (var "XDG_CONFIG_HOME")

  abbrev or_default : Result String RunsConfig → RunsConfig
  or_default (ok config) = config
  or_default (err e) = default_runs_config

  abbrev with_file : {F : Type 0} → Sources F → F → F
  with_file sources f = if exists config_path then sources.merge_toml config_path f else f

  -- `RunsConfig::load`
  unfoldable pub load : {F : Type 0} → Sources F → RunsConfig
  unfolding config_path default_runs_config
  load sources = or_default (
      sources.extract
        (sources.merge_env "RUNS_" "_" (with_file sources (sources.defaults default_runs_config))))

config_path_lem : config_path (λ _. some "/home/u") (λ _. true) ≡ "/home/u/runs/config.toml"
unfolding config_path join_path
config_path_lem = refl
