-- ===== src/Errors/Messages.antt =====
-- The texts of errors, err.Error(): (*DomainError).Error of internal/domain/errors/errors.go, and the
-- messages of the sentinels.
use alert_bridge.Base.{String}
use alert_bridge.UseCase.Slack.Durations.{◌+++◌}
use alert_bridge.Errors.{
  Sentinel, ErrorCategory, Error, alert_not_found, alert_already_resolved, alert_already_acked,
  invalid_alert_state, duplicate_alert, silence_not_found, silence_expired,
  invalid_silence_duration, not_found, already_exists, concurrent_update, circuit_open, validation,
  missing, conflict, transient, permanent, internal, sentinel, domain_error, domain_caused, wrapped,
  other,
}

abbrev pub category_text : ErrorCategory → String
category_text validation = "validation"
category_text missing = "not_found"
category_text conflict = "conflict"
category_text transient = "transient"
category_text permanent = "permanent"
category_text internal = "internal"

abbrev pub sentinel_text : Sentinel → String
sentinel_text alert_not_found = "alert not found"
sentinel_text alert_already_resolved = "alert already resolved"
sentinel_text alert_already_acked = "alert already acknowledged"
sentinel_text invalid_alert_state = "invalid alert state transition"
sentinel_text duplicate_alert = "duplicate alert"
sentinel_text silence_not_found = "silence not found"
sentinel_text silence_expired = "silence expired"
sentinel_text invalid_silence_duration = "invalid silence duration"
sentinel_text not_found = "not found"
sentinel_text already_exists = "already exists"
sentinel_text concurrent_update = "concurrent update detected"
sentinel_text circuit_open = "circuit breaker is open"

unfoldable pub error_text : Error → String
error_text (sentinel s) = sentinel_text s
error_text (domain_error c m) = category_text c +++ ": " +++ m
error_text (domain_caused c m e) = category_text c +++ ": " +++ m +++ ": " +++ error_text e
error_text (wrapped m e) = m +++ ": " +++ error_text e
error_text (other m) = m
