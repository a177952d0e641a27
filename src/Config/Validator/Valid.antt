-- ===== src/Config/Validator/Valid.antt =====
-- What a valid configuration is, and that Validate of internal/infrastructure/config/validator.go
-- accepts these and no other.
use alert_bridge.Base.{String, ◌≡◌, ◌≢◌, ◌↔◌, refl, true, false, none, List, [], ◌∷◌, arith}
use alert_bridge.Base.Int.{ℤ, pos, negsuc, ◌<ℤ◌}
use alert_bridge.Config.Types.{
  Config, ServerConfig, StorageConfig, MysqlInstanceConfig, MysqlReplicaConfig, MysqlPoolConfig,
  MysqlConfig, SlackConfig, PagerDutyConfig, AlertingConfig, LoggingConfig, is_slack_enabled,
  is_pager_duty_enabled,
}
use alert_bridge.Config.Validator.{
  report, server_errors, primary_errors, replica_errors, pool_errors, mysql_errors, storage_errors,
  slack_errors, pager_duty_errors, logging_errors, silence_duration_errors, alerting_errors,
  validation_errors, validate,
}
use alert_bridge.Config.Validator.Checks.{
  ◌and◌, ◌&◌, only_if_iff, only_if-eq_iff, branch_iff, IsPort, validate_port_iff,
  validate_duration_iff, validate_non_empty_iff, check_le_iff, check_lt_iff, IsLogLevel,
  validate_log_level_iff, IsLogFormat, validate_log_format_iff, IsStorageType,
  validate_storage_type_iff,
}

abbrev pub IsValidServer : ServerConfig → Type 0
IsValidServer s =
    IsPort s.port
    and (pos 0 <ℤ s.read_timeout)
    and (pos 0 <ℤ s.write_timeout)
    and (pos 0 <ℤ s.request_timeout)
    and (pos 0 <ℤ s.shutdown_timeout)
    and (s.request_timeout <ℤ s.write_timeout)

pub server_errors_iff : (s : ServerConfig) → (server_errors s ≡ []) ↔ IsValidServer s
unfolding server_errors
server_errors_iff s =
    validate_port_iff _ _
    & validate_duration_iff _ _
    & validate_duration_iff _ _
    & validate_duration_iff _ _
    & validate_duration_iff _ _
    & check_le_iff s.write_timeout s.request_timeout _

abbrev pub IsValidPrimary : MysqlInstanceConfig → Type 0
IsValidPrimary p =
    (p.host ≢ "")
    and IsPort p.port
    and (p.database ≢ "")
    and (p.username ≢ "")
    and (p.password ≢ "")

primary_errors_iff : (p : MysqlInstanceConfig) → (primary_errors p ≡ []) ↔ IsValidPrimary p
unfolding primary_errors
primary_errors_iff p =
    validate_non_empty_iff _ _
    & validate_port_iff _ _
    & validate_non_empty_iff _ _
    & validate_non_empty_iff _ _
    & validate_non_empty_iff _ _

abbrev pub IsValidReplica : MysqlReplicaConfig → Type 0
IsValidReplica r =
    (r.host ≢ "")
    and IsPort r.port
    and (r.database ≢ "")
    and (r.username ≢ "")
    and (r.password ≢ "")

replica_errors_iff : (r : MysqlReplicaConfig) → (replica_errors r ≡ []) ↔ IsValidReplica r
unfolding replica_errors
replica_errors_iff r =
    validate_non_empty_iff _ _
    & validate_port_iff _ _
    & validate_non_empty_iff _ _
    & validate_non_empty_iff _ _
    & validate_non_empty_iff _ _

-- At least one connection, and no more idle ones than open ones.
abbrev pub IsValidPool : MysqlPoolConfig → Type 0
IsValidPool p =
    ((p.max_open_conns <ℤ pos 1) → ⊥)
    and ((p.max_idle_conns <ℤ pos 0) → ⊥)
    and ((p.max_open_conns <ℤ p.max_idle_conns) → ⊥)

pool_errors_iff : (p : MysqlPoolConfig) → (pool_errors p ≡ []) ↔ IsValidPool p
unfolding pool_errors
pool_errors_iff p =
    check_lt_iff p.max_open_conns (pos 1) _
    & check_lt_iff p.max_idle_conns (pos 0) _
    & check_lt_iff p.max_open_conns p.max_idle_conns _

abbrev pub IsValidMysql : MysqlConfig → Type 0
IsValidMysql m =
    IsValidPrimary m.primary
    and (m.replica.enabled ≡ true → IsValidReplica m.replica)
    and IsValidPool m.pool

mysql_errors_iff : (m : MysqlConfig) → (mysql_errors m ≡ []) ↔ IsValidMysql m
unfolding mysql_errors
mysql_errors_iff m =
    primary_errors_iff m.primary
    & only_if_iff m.replica.enabled (replica_errors_iff m.replica)
    & pool_errors_iff m.pool

abbrev pub IsValidStorage : StorageConfig → Type 0
IsValidStorage s =
    IsStorageType s.kind
    and (s.kind ≡ "sqlite" → s.sqlite.path ≢ "")
    and (s.kind ≡ "mysql" → IsValidMysql s.mysql)

storage_errors_iff : (s : StorageConfig) → (storage_errors s ≡ []) ↔ IsValidStorage s
unfolding storage_errors
storage_errors_iff s =
    validate_storage_type_iff s.kind
    & only_if-eq_iff s.kind "sqlite" (validate_non_empty_iff _ _)
    & only_if-eq_iff s.kind "mysql" (mysql_errors_iff s.mysql)

-- Socket mode needs its token and a ping interval, HTTP mode the signing secret.
abbrev pub IsValidSlack : SlackConfig → Type 0
IsValidSlack s =
    (s.bot_token ≢ "")
    and (s.channel_id ≢ "")
    and (s.socket_mode.enabled ≡ true
        → (s.socket_mode.app_token ≢ "") and (pos 0 <ℤ s.socket_mode.ping_interval))
    and (s.socket_mode.enabled ≡ false → s.signing_secret ≢ "")

slack_errors_iff : (s : SlackConfig) → (slack_errors s ≡ []) ↔ IsValidSlack s
unfolding slack_errors
slack_errors_iff s =
    validate_non_empty_iff _ _
    & validate_non_empty_iff _ _
    & branch_iff s.socket_mode.enabled (validate_non_empty_iff _ _ & validate_duration_iff _ _)
        (validate_non_empty_iff _ _)

abbrev pub IsValidPagerDuty : PagerDutyConfig → Type 0
IsValidPagerDuty p =
    (p.api_token ≢ "") and (p.routing_key ≢ "") and (p.service_id ≢ "") and (p.from_email ≢ "")

pager_duty_errors_iff : (p : PagerDutyConfig) → (pager_duty_errors p ≡ []) ↔ IsValidPagerDuty p
unfolding pager_duty_errors
pager_duty_errors_iff p =
    validate_non_empty_iff _ _
    & validate_non_empty_iff _ _
    & validate_non_empty_iff _ _
    & validate_non_empty_iff _ _

abbrev pub AllPositive : List ℤ → Type 0
AllPositive [] = Unit
AllPositive (d ∷ ds) = (pos 0 <ℤ d) and AllPositive ds

abbrev pub IsValidAlerting : AlertingConfig → Type 0
IsValidAlerting a =
    (pos 0 <ℤ a.deduplication_window)
    and (a.deduplication_window <ℤ a.resend_interval)
    and AllPositive a.silence_durations

abbrev pub IsValidLogging : LoggingConfig → Type 0
IsValidLogging l = IsLogLevel l.level and IsLogFormat l.format

logging_errors_iff : (l : LoggingConfig) → (logging_errors l ≡ []) ↔ IsValidLogging l
unfolding logging_errors
logging_errors_iff l = validate_log_level_iff l.level & validate_log_format_iff l.format

abbrev pub IsValid : Config → Type 0
IsValid c =
    IsValidServer c.server
    and IsValidStorage c.storage
    and (c.slack.enabled ≡ true → IsValidSlack c.slack)
    and (c.pager_duty.enabled ≡ true → IsValidPagerDuty c.pager_duty)
    and IsValidAlerting c.alerting
    and IsValidLogging c.logging

-- The check that the interval is positive follows from the order of the two.
positive_above : (d r : ℤ) → (pos 0 <ℤ d) → (d <ℤ r) → (pos 0 <ℤ r)
positive_above (pos d) (pos r) p q = omega arith
positive_above (pos d) (negsuc r) p q = absurd q
positive_above (negsuc d) r p q = absurd p

report-none_iff : (es : List String) → (report es ≡ none) ↔ (es ≡ [])
report-none_iff [] = ground arith
report-none_iff (e ∷ es) = ground arith

module _ (show_duration : ℤ → String) where
  silence_duration_errors_iff :
      (ds : List ℤ) → (silence_duration_errors show_duration ds ≡ []) ↔ AllPositive ds
  unfolding silence_duration_errors
  silence_duration_errors_iff [] = (λ _. tt, λ _. refl)
  silence_duration_errors_iff (d ∷ ds) = check_le_iff d (pos 0) _ & silence_duration_errors_iff ds

  alerting_errors_iff :
      (a : AlertingConfig) → (alerting_errors show_duration a ≡ []) ↔ IsValidAlerting a
  unfolding alerting_errors
  alerting_errors_iff a =
      let parts =
        validate_duration_iff a.deduplication_window "alerting.deduplication_window"
        & validate_duration_iff a.resend_interval "alerting.resend_interval"
        & check_le_iff a.resend_interval a.deduplication_window
            "alerting.resend_interval must be greater than alerting.deduplication_window"
        & silence_duration_errors_iff a.silence_durations in
      (
        λ e. let (w, (_, (o, ds))) = parts.0 e in (w, (o, ds)),
        λ (w, (o, ds)). parts.1 (w, (positive_above _ _ w o, (o, ds))),
      )

  -- Validate reports no error exactly for a valid configuration: a port between 1 and 65535,
  -- positive timeouts with the request's below the write's, a known storage with what it needs, what
  -- Slack and PagerDuty need where they are enabled, positive durations with the window below the
  -- interval, and a known log level and format.
  pub validate-IsValid : (c : Config) → (validate show_duration c ≡ none) ↔ IsValid c
  unfolding validate validation_errors is_slack_enabled is_pager_duty_enabled
  validate-IsValid c =
      let none_iff = report-none_iff (validation_errors show_duration c) in
      let parts =
        server_errors_iff c.server
        & storage_errors_iff c.storage
        & only_if_iff c.slack.enabled (slack_errors_iff c.slack)
        & only_if_iff c.pager_duty.enabled (pager_duty_errors_iff c.pager_duty)
        & alerting_errors_iff c.alerting
        & logging_errors_iff c.logging in
      (λ e. parts.0 (none_iff.0 e), λ v. none_iff.1 (parts.1 v))
