-- ===== src/Errors/Classes.antt =====
-- How the error predicates classify a chain of errors.
use alert_bridge.Base.{String, ◌≡◌, refl, false, some, ◌&&◌, arith}
use alert_bridge.Errors.{
  Error, ErrorCategory, sentinel, domain_error, domain_caused, wrapped, other, is_transient_error,
  is_retryable, wrap, is_not_found, is_conflict,
}

-- Wrapping an error by a domain error makes it retryable exactly when the new category is
-- transient, whatever the cause is; wrapping by a message leaves the class as it is.
pub is_transient_error-wrap :
    (e : Error) (c : ErrorCategory) (m n : String) {w : Error}
    → wrap (some e) c m ≡ some w
    → (is_transient_error w ≡ is_retryable c)
      × (is_transient_error (wrapped n w) ≡ is_retryable c)
      × (is_transient_error (wrapped n e) ≡ is_transient_error e)
unfolding wrap is_transient_error is_retryable
is_transient_error-wrap e c m n h = ground arith

-- No error is both a missing entity and a conflict, however it is wrapped.
pub not_found_excludes_conflict : (e : Error) → (is_not_found e && is_conflict e) ≡ false
unfolding is_not_found is_conflict
not_found_excludes_conflict (sentinel s) = ground arith
not_found_excludes_conflict (domain_error c m) = refl
not_found_excludes_conflict (domain_caused c m e) = not_found_excludes_conflict e
not_found_excludes_conflict (wrapped m e) = not_found_excludes_conflict e
not_found_excludes_conflict (other m) = refl
