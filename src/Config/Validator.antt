-- ===== src/Config/Validator.antt =====
-- internal/infrastructure/config/validator.go. A check appends its message to the list of errors;
-- `show_duration` is (time.Duration).String.
pub mod Checks
pub mod Clashes
pub mod Valid
use alert_bridge.Base.{
  ℕ, String, Bool, true, false, not, ◌||◌, Option, none, some, List, [], ◌∷◌, ◌++◌, ◌==◌,
  if◌then◌else◌, suc,
}
use alert_bridge.Base.Int.{ℤ, pos, negsuc, is_positive, ltb_ℤ, leb_ℤ}
use alert_bridge.Base.Text.{itoa}
use alert_bridge.UseCase.Slack.Durations.{◌+++◌}
use alert_bridge.Config.Types.{
  Config, ServerConfig, StorageConfig, MysqlInstanceConfig, MysqlReplicaConfig, MysqlPoolConfig,
  MysqlConfig, SlackConfig, PagerDutyConfig, AlertingConfig, LoggingConfig, is_slack_enabled,
  is_pager_duty_enabled,
}

infixr 60 ◌<+>◌
-- The errors of one check and then those of the next.
abbrev pub ◌<+>◌ : List String → List String → List String
xs <+> ys = xs ++ ys

-- %d
abbrev pub int_text : ℤ → String
int_text (pos n) = itoa n
int_text (negsuc n) = "-" +++ itoa (suc n)

-- if failed { errors = append(errors, message) }
unfoldable pub check : Bool → String → List String
check failed message = if failed then message ∷ [] else []

abbrev pub is_log_level : String → Bool
is_log_level s = s == "debug" || s == "info" || s == "warn" || s == "error"

unfoldable pub validate_log_level : String → List String
validate_log_level level =
    check (not (is_log_level level))
      ("invalid log level: " +++ level +++ " (must be debug, info, warn, or error)")

abbrev pub is_log_format : String → Bool
is_log_format s = s == "json" || s == "text"

unfoldable pub validate_log_format : String → List String
validate_log_format format =
    check (not (is_log_format format))
      ("invalid log format: " +++ format +++ " (must be json or text)")

unfoldable pub validate_non_empty : String → String → List String
validate_non_empty value field_name = check (value == "") (field_name +++ " cannot be empty")

unfoldable pub validate_duration : ℤ → String → List String
validate_duration duration field_name =
    check (leb_ℤ duration (pos 0)) (field_name +++ " must be greater than 0")

unfoldable pub validate_port : ℤ → String → List String
validate_port port field_name =
    check (ltb_ℤ port (pos 1) || ltb_ℤ (pos 65535) port)
      (field_name +++ " must be between 1 and 65535, got " +++ int_text port)

abbrev pub is_storage_type : String → Bool
is_storage_type s = s == "memory" || s == "sqlite" || s == "mysql"

unfoldable pub validate_storage_type : String → List String
validate_storage_type t =
    check (not (is_storage_type t))
      ("invalid storage type: " +++ t +++ " (must be memory, sqlite, or mysql)")

unfoldable pub server_errors : ServerConfig → List String
server_errors s =
    validate_port s.port "server.port"
    <+> validate_duration s.read_timeout "server.read_timeout"
    <+> validate_duration s.write_timeout "server.write_timeout"
    <+> validate_duration s.request_timeout "server.request_timeout"
    <+> validate_duration s.shutdown_timeout "server.shutdown_timeout"
    <+> check (leb_ℤ s.write_timeout s.request_timeout)
        "server.request_timeout must be less than server.write_timeout"

unfoldable pub primary_errors : MysqlInstanceConfig → List String
primary_errors p =
    validate_non_empty p.host "storage.mysql.primary.host"
    <+> validate_port p.port "storage.mysql.primary.port"
    <+> validate_non_empty p.database "storage.mysql.primary.database"
    <+> validate_non_empty p.username "storage.mysql.primary.username"
    <+> validate_non_empty p.password "storage.mysql.primary.password"

unfoldable pub replica_errors : MysqlReplicaConfig → List String
replica_errors r =
    validate_non_empty r.host "storage.mysql.replica.host"
    <+> validate_port r.port "storage.mysql.replica.port"
    <+> validate_non_empty r.database "storage.mysql.replica.database"
    <+> validate_non_empty r.username "storage.mysql.replica.username"
    <+> validate_non_empty r.password "storage.mysql.replica.password"

unfoldable pub pool_errors : MysqlPoolConfig → List String
pool_errors p =
    check (ltb_ℤ p.max_open_conns (pos 1)) "storage.mysql.pool.max_open_conns must be at least 1"
    <+> check (ltb_ℤ p.max_idle_conns (pos 0))
        "storage.mysql.pool.max_idle_conns cannot be negative"
    <+> check (ltb_ℤ p.max_open_conns p.max_idle_conns)
        "storage.mysql.pool.max_idle_conns cannot exceed max_open_conns"

-- The checks behind a test.
unfoldable pub only_if : Bool → List String → List String
only_if test errors = if test then errors else []

unfoldable pub mysql_errors : MysqlConfig → List String
mysql_errors m =
    primary_errors m.primary
    <+> only_if m.replica.enabled (replica_errors m.replica)
    <+> pool_errors m.pool

unfoldable pub storage_errors : StorageConfig → List String
storage_errors s =
    validate_storage_type s.kind
    <+> only_if (s.kind == "sqlite") (validate_non_empty s.sqlite.path "storage.sqlite.path")
    <+> only_if (s.kind == "mysql") (mysql_errors s.mysql)

unfoldable pub slack_errors : SlackConfig → List String
slack_errors s =
    validate_non_empty s.bot_token "slack.bot_token"
    <+> validate_non_empty s.channel_id "slack.channel_id"
    <+> (if s.socket_mode.enabled
        then validate_non_empty s.socket_mode.app_token "slack.socket_mode.app_token"
          <+> validate_duration s.socket_mode.ping_interval "slack.socket_mode.ping_interval"
        else validate_non_empty s.signing_secret "slack.signing_secret")

unfoldable pub pager_duty_errors : PagerDutyConfig → List String
pager_duty_errors p =
    validate_non_empty p.api_token "pagerduty.api_token"
    <+> validate_non_empty p.routing_key "pagerduty.routing_key"
    <+> validate_non_empty p.service_id "pagerduty.service_id"
    <+> validate_non_empty p.from_email "pagerduty.from_email"

unfoldable pub logging_errors : LoggingConfig → List String
logging_errors l = validate_log_level l.level <+> validate_log_format l.format

-- joinErrors
unfoldable pub join_errors : List String → String
join_errors [] = ""
join_errors (e ∷ []) = e
join_errors (e ∷ f ∷ es) = e +++ "\n  - " +++ join_errors (f ∷ es)

-- `none` is the nil error.
abbrev pub report : List String → Option String
report [] = none
report (e ∷ es) = some ("configuration validation failed:\n  - " +++ join_errors (e ∷ es))

module _ (show_duration : ℤ → String) where
  unfoldable pub silence_duration_errors : List ℤ → List String
  silence_duration_errors [] = []
  silence_duration_errors (d ∷ ds) =
      check (leb_ℤ d (pos 0))
        ("alerting.silence_durations contains invalid duration: " +++ show_duration d)
      <+> silence_duration_errors ds

  unfoldable pub alerting_errors : AlertingConfig → List String
  alerting_errors a =
      validate_duration a.deduplication_window "alerting.deduplication_window"
      <+> validate_duration a.resend_interval "alerting.resend_interval"
      <+> check (leb_ℤ a.resend_interval a.deduplication_window)
          "alerting.resend_interval must be greater than alerting.deduplication_window"
      <+> silence_duration_errors a.silence_durations

  unfoldable pub validation_errors : Config → List String
  validation_errors c =
      server_errors c.server
      <+> storage_errors c.storage
      <+> only_if (is_slack_enabled c) (slack_errors c.slack)
      <+> only_if (is_pager_duty_enabled c) (pager_duty_errors c.pager_duty)
      <+> alerting_errors c.alerting
      <+> logging_errors c.logging

  -- (*Config).Validate
  unfoldable pub validate : Config → Option String
  validate c = report (validation_errors c)
