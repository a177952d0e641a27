-- ===== src/Resilience/CircuitBreaker/Interleavings.antt =====
-- Invariants of the breaker over every interleaving of its two locked sections.
use alert_bridge.Base.{ℕ, ◌≤◌, ◌<◌, String, ◌≡◌, ◌≢◌, Option, arith}
use alert_bridge.Errors.{Error}
use alert_bridge.Resilience.CircuitBreaker.{
  CircuitBreaker, closed, half_open, new_circuit_breaker, before_request, after_request,
}

-- One locked section of some request: its start, or its end with or without an error. An end may
-- come in any state, since other requests move the breaker while `fn` runs.
pub data Step : CircuitBreaker → CircuitBreaker → Type 0 where
  starts : (now : ℕ) (cb : CircuitBreaker) → Step cb (before_request now cb).0
  ends : (now : ℕ) (e : Option Error) (cb : CircuitBreaker) → Step cb (after_request now e cb)

pub data Reach (s : CircuitBreaker) : CircuitBreaker → Type 0 where
  here : Reach s s
  next : {t u : CircuitBreaker} → Reach s t → Step t u → Reach s u

-- The breaker is closed exactly while its failures are below the limit, and a half-open one still
-- lacks a success.
pub record IsSound (cb : CircuitBreaker) : Type 0 where
  pub limit_positive : 0 < cb.max_failures
  pub closed_below : cb.state ≡ closed → cb.failures < cb.max_failures
  pub tripped_above : cb.state ≢ closed → cb.max_failures ≤ cb.failures
  pub half_open_waits : cb.state ≡ half_open → cb.success_count < 2
  pub needs_two : cb.half_open_succ ≡ 2

starts-IsSound : (now : ℕ) (cb : CircuitBreaker) → IsSound cb → IsSound (before_request now cb).0
unfolding before_request
starts-IsSound now cb v = grind arith

ends-IsSound :
    (now : ℕ) (e : Option Error) (cb : CircuitBreaker)
    → IsSound cb
    → IsSound (after_request now e cb)
unfolding after_request
ends-IsSound now e cb v = grind arith

Step-IsSound : {cb cb' : CircuitBreaker} → Step cb cb' → IsSound cb → IsSound cb'
Step-IsSound (starts now cb) v = starts-IsSound now cb v
Step-IsSound (ends now e cb) v = ends-IsSound now e cb v

-- However the requests interleave, a breaker made with a positive limit is closed exactly while
-- its count of failures is below the limit, and a half-open one has at most one success.
pub Reach-IsSound :
    (name : String) (max_failures timeout : ℕ) {cb : CircuitBreaker}
    → 0 < max_failures
    → Reach (new_circuit_breaker name max_failures timeout) cb
    → IsSound cb
unfolding new_circuit_breaker
Reach-IsSound name max_failures timeout h here = ground arith
Reach-IsSound name max_failures timeout h (next r st) =
    Step-IsSound st (Reach-IsSound name max_failures timeout h r)
