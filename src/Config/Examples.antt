-- ===== src/Config/Examples.antt =====
-- Tests and instances for the configuration.
use alert_bridge.Base.{
  String, ◌≡◌, ◌≢◌, ◌↔◌, refl, true, none, some, [], ◌∷◌, ◌==◌, if◌then◌else◌, arith,
}
use alert_bridge.Base.Int.{ℤ, pos, negsuc}
use alert_bridge.Base.Text.{itoa}
use alert_bridge.Errors.{ok, err, other}
use alert_bridge.Config.Types.{
  Config, zero_config, seconds, is_slack_enabled, is_pager_duty_enabled,
}
use alert_bridge.Config.Environment.{override_from_env}
use alert_bridge.Config.Defaults.{apply_defaults, apply_defaults_idempotent}
use alert_bridge.Config.Validator.{
  check, only_if, validate_log_level, validate_log_format, validate_duration, validate_port,
  validate_storage_type, server_errors, storage_errors, logging_errors, join_errors,
  silence_duration_errors, alerting_errors, validation_errors, validate,
}
use alert_bridge.Config.Validator.Valid.{IsValid, validate-IsValid}
use alert_bridge.Config.Validator.Clashes.{small_pool-refused, short_write_timeout-refused}
use alert_bridge.Config.Load.{Machine, not_exist, load}
use alert_bridge.Config.Reload.{
  ConfigManager, same_instance, same_replica, same_pool, same_mysql, swap, try_reload, changed_keys,
  detect_static_changes,
}
use alert_bridge.Config.Reload.Equality.{SameStatic}
use alert_bridge.Config.Reload.Interleavings.{
  Running, Reach, here, next, compares, swaps, Reach-keeps_static,
}
use alert_bridge.Config.Reload.Outcome.{IsAtomic, try_reload-IsAtomic}

-- No file, no environment.
abbrev started : Config
started = apply_defaults zero_config

abbrev no_text : ℤ → String
no_text d = ""

started_passes : validate no_text started ≡ none
unfolding validate validation_errors server_errors validate_port check validate_duration
    storage_errors validate_storage_type only_if is_slack_enabled is_pager_duty_enabled
    alerting_errors silence_duration_errors logging_errors validate_log_level validate_log_format
    apply_defaults
started_passes = refl

started-IsValid : IsValid started
started-IsValid = (validate-IsValid no_text started).0 started_passes

validate-IsValid_example : (validate no_text started ≡ none) ↔ IsValid started
validate-IsValid_example = validate-IsValid no_text started

defaults_settle : apply_defaults (apply_defaults started) ≡ apply_defaults started
defaults_settle = apply_defaults_idempotent started

-- The errors of a port of -1 and of an unknown log level, joined.
abbrev refused : Config
refused = record started {
  server = record started.server { port = negsuc 0 };
  logging = record started.logging { level = "trace" };
}

refused_text :
    validate no_text refused
    ≡ some
        "configuration validation failed:\n  - server.port must be between 1 and 65535, got -1\n  - invalid log level: trace (must be debug, info, warn, or error)"
unfolding validate validation_errors server_errors validate_port check validate_duration
    storage_errors validate_storage_type only_if is_slack_enabled is_pager_duty_enabled
    alerting_errors silence_duration_errors logging_errors validate_log_level validate_log_format
    apply_defaults join_errors itoa
refused_text = refl

-- A pool of two connections, which the default of five idle ones does not fit.
abbrev pooled : Config
pooled = record zero_config {
  storage = record zero_config.storage {
    kind = "mysql";
    mysql = record zero_config.storage.mysql {
      pool = record zero_config.storage.mysql.pool { max_open_conns = pos 2 };
    };
  };
}

pooled_refused : validate no_text (apply_defaults pooled) ≢ none
pooled_refused = small_pool-refused no_text pooled 1 refl refl refl (omega arith)

abbrev hurried : Config
hurried = record zero_config { server = record zero_config.server { write_timeout = seconds 20 } }

hurried_refused : validate no_text (apply_defaults hurried) ≢ none
hurried_refused = short_write_timeout-refused no_text hurried 19_999_999_999 refl refl (omega arith)

-- The environment of a later reload: the level of the log is set.
abbrev debugging : Machine
debugging = record {
  getenv = λ name. if name == "LOG_LEVEL" then "debug" else "";
  parse_duration = λ s. none;
  show_duration = no_text;
  read_file = λ path. not_exist;
  expand_env = λ s. s;
  unmarshal = λ s. err (other "no YAML");
}

abbrev verbose : Config
verbose = record started { logging = record started.logging { level = "debug" } }

verbose_loads : load debugging "config.yaml" ≡ ok verbose
unfolding validate validation_errors server_errors validate_port check validate_duration
    storage_errors validate_storage_type only_if is_slack_enabled is_pager_duty_enabled
    alerting_errors silence_duration_errors logging_errors validate_log_level validate_log_format
    apply_defaults load override_from_env
verbose_loads = refl

verbose_static : detect_static_changes started verbose ≡ []
unfolding detect_static_changes apply_defaults same_mysql same_instance same_replica same_pool
verbose_static = refl

verbose_changes : changed_keys started verbose ≡ "logging.level" ∷ []
unfolding changed_keys apply_defaults
verbose_changes = refl

abbrev manager : ConfigManager
manager = record {
  config = started;
  config_path = "config.yaml";
  on_reload_success = true;
  observed = [];
}

abbrev idle : Running
idle = record { manager = manager; compared = [] }

abbrev reloading : Running
reloading = record { manager = manager; compared = verbose ∷ [] }

abbrev swapped : Running
swapped = record { manager = swap verbose manager; compared = [] }

runs : Reach idle swapped
runs =
    next (next here (compares debugging verbose idle verbose_loads verbose_static))
      (swaps verbose [] [] reloading refl)

Reach-keeps_static_example : IsValid verbose × SameStatic started verbose
Reach-keeps_static_example = Reach-keeps_static manager swapped started-IsValid runs

try_reload-IsAtomic_example : IsAtomic debugging manager (try_reload debugging manager)
try_reload-IsAtomic_example = try_reload-IsAtomic debugging manager
