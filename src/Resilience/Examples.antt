-- ===== src/Resilience/Examples.antt =====
-- Tests and instances for the circuit breaker.
use alert_bridge.Base.{ℕ, ◌≢◌, none, some, arith}
use alert_bridge.Errors.{other}
use alert_bridge.Resilience.CircuitBreaker.{
  CircuitBreaker, closed, open_state, new_circuit_breaker, before_request, after_request,
}
use alert_bridge.Resilience.CircuitBreaker.Interleavings.{IsSound, ends, here, next, Reach-IsSound}
use alert_bridge.Resilience.CircuitBreaker.Recovery.{Request}

abbrev new_breaker : CircuitBreaker
new_breaker = record {
  name = "slack";
  max_failures = 1;
  timeout = 30;
  half_open_succ = 2;
  state = closed;
  failures = 0;
  last_fail_time = 0;
  success_count = 0;
}

abbrev tripped : CircuitBreaker
tripped = record new_breaker { state = open_state; failures = 1; last_fail_time = 5 }

abbrev failing : ℕ → Request
failing t = record { started = t; finished = t; outcome = some (other "timeout") }

abbrev working : ℕ → Request
working t = record { started = t; finished = t; outcome = none }

Reach-IsSound_example : IsSound tripped
unfolding new_circuit_breaker after_request before_request
Reach-IsSound_example =
    Reach-IsSound "slack" 1 30 (omega arith)
      (next here (ends 5 (some (other "timeout")) new_breaker))

not_none : (failing 0).outcome ≢ none
not_none e = ground arith
