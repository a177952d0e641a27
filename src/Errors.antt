-- ===== src/Errors.antt =====
-- Go error values: the sentinels of internal/domain/entity/errors.go,
-- internal/domain/repository/errors.go and internal/infrastructure/resilience/circuit_breaker.go,
-- the typed errors of internal/domain/errors/errors.go, and the chains that `%w` builds.
-- The `Fields` of a DomainError are never read by the program and are left out.
pub mod Classes
pub mod Messages
pub mod Examples
use alert_bridge.Base.{String, Bool, true, false, Option, none, some, ◌||◌, ◌&&◌, ◌==◌}

pub data Sentinel : Type 0 where
  alert_not_found alert_already_resolved alert_already_acked invalid_alert_state : Sentinel
  duplicate_alert silence_not_found silence_expired invalid_silence_duration : Sentinel
  not_found already_exists concurrent_update circuit_open : Sentinel

pub data ErrorCategory : Type 0 where
  validation missing conflict transient permanent internal : ErrorCategory

-- `domain_error` has no cause. `wrapped` is fmt.Errorf("msg: %w", err), and `other` is an error
-- of a library, which unwraps to nothing that the program knows.
pub data Error : Type 0 where
  sentinel : Sentinel → Error
  domain_error : ErrorCategory → String → Error
  domain_caused : ErrorCategory → String → Error → Error
  wrapped : String → Error → Error
  other : String → Error

pub data Result {ℓ} (A : Type ℓ) : Type ℓ where
  ok : A → Result A
  err : Error → Result A

pub Sentinel-discrete : Discrete Sentinel
Sentinel-discrete = hlevel

abbrev pub same_sentinel : Sentinel → Sentinel → Bool
same_sentinel alert_not_found alert_not_found = true
same_sentinel alert_already_resolved alert_already_resolved = true
same_sentinel alert_already_acked alert_already_acked = true
same_sentinel invalid_alert_state invalid_alert_state = true
same_sentinel duplicate_alert duplicate_alert = true
same_sentinel silence_not_found silence_not_found = true
same_sentinel silence_expired silence_expired = true
same_sentinel invalid_silence_duration invalid_silence_duration = true
same_sentinel not_found not_found = true
same_sentinel already_exists already_exists = true
same_sentinel concurrent_update concurrent_update = true
same_sentinel circuit_open circuit_open = true
same_sentinel _ _ = false

abbrev pub same_category : ErrorCategory → ErrorCategory → Bool
same_category validation validation = true
same_category missing missing = true
same_category conflict conflict = true
same_category transient transient = true
same_category permanent permanent = true
same_category internal internal = true
same_category _ _ = false

-- errors.Is(err, target) for a sentinel: a walk along the chain
unfoldable pub errors_is : Error → Sentinel → Bool
errors_is (sentinel s) t = same_sentinel s t
errors_is (domain_error c m) t = false
errors_is (domain_caused c m e) t = errors_is e t
errors_is (wrapped m e) t = errors_is e t
errors_is (other m) t = false

-- errors.As(err, &domainErr): the category of the first DomainError of the chain
unfoldable pub as_category : Error → Option ErrorCategory
as_category (sentinel s) = none
as_category (domain_error c m) = some c
as_category (domain_caused c m e) = some c
as_category (wrapped m e) = as_category e
as_category (other m) = none

abbrev has_category : ErrorCategory → Option ErrorCategory → Bool
has_category c none = false
has_category c (some d) = same_category d c

unfoldable pub is_validation_error : Error → Bool
unfolding as_category
is_validation_error e = has_category validation (as_category e)

unfoldable pub is_not_found_error : Error → Bool
unfolding as_category
is_not_found_error e = has_category missing (as_category e)

unfoldable pub is_conflict_error : Error → Bool
unfolding as_category
is_conflict_error e = has_category conflict (as_category e)

unfoldable pub is_transient_error : Error → Bool
unfolding as_category
is_transient_error e = has_category transient (as_category e)

unfoldable pub is_internal_error : Error → Bool
unfolding as_category
is_internal_error e = has_category internal (as_category e)

-- (*DomainError).IsRetryable and .IsCategory, on the error's own category
unfoldable pub is_retryable : ErrorCategory → Bool
is_retryable c = same_category c transient

-- errors.Wrap(err, category, message), which keeps nil
unfoldable pub wrap : Option Error → ErrorCategory → String → Option Error
wrap none c m = none
wrap (some e) c m = some (domain_caused c m e)

-- IsNotFound and IsConflict of internal/domain/entity/errors.go
unfoldable pub is_not_found : Error → Bool
unfolding errors_is
is_not_found e = errors_is e alert_not_found || errors_is e silence_not_found

unfoldable pub is_conflict : Error → Bool
unfolding errors_is
is_conflict e =
    errors_is e alert_already_resolved
    || errors_is e alert_already_acked
    || errors_is e duplicate_alert
