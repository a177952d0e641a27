-- ===== src/Resilience/CircuitBreaker.antt =====
-- internal/infrastructure/resilience/circuit_breaker.go. The two locked sections, beforeRequest
-- and afterRequest, are the atomic steps; `fn` runs between them with the lock released, so the
-- sections of concurrent requests interleave. The failure count is an int of 64 bits and is left
-- unbounded. A reading of the clock is the argument `now`.
pub mod Interleavings
pub mod Recovery
use alert_bridge.Base.{
  ℕ, zero, suc, ◌+◌, ◌-◌, String, Bool, true, false, Option, none, some, ltb, leb, if◌then◌else◌,
}
use alert_bridge.Errors.{Error, sentinel, circuit_open}

pub data State : Type 0 where
  closed open_state half_open : State

unfoldable pub state_text : State → String
state_text closed = "closed"
state_text open_state = "open"
state_text half_open = "half-open"

pub record CircuitBreaker : Type 0 where
  pub name : String
  pub max_failures : ℕ
  pub timeout : ℕ
  pub half_open_succ : ℕ
  pub state : State
  pub failures : ℕ
  pub last_fail_time : ℕ
  pub success_count : ℕ

unfoldable pub new_circuit_breaker : String → ℕ → ℕ → CircuitBreaker
new_circuit_breaker name max_failures timeout = record {
  name = name;
  max_failures = max_failures;
  timeout = timeout;
  half_open_succ = 2;
  state = closed;
  failures = 0;
  last_fail_time = 0;
  success_count = 0;
}

-- `time.Since(t) > timeout` reads `timeout < now - t`; a clock that went back gives 0 here and a
-- negative duration in Go, and neither exceeds the timeout.
unfoldable pub before_request : ℕ → CircuitBreaker → CircuitBreaker × Option Error
before_request now cb = elim cb.state [
  | open_state ↦
      if ltb cb.timeout (now - cb.last_fail_time)
      then (record cb { state = half_open; success_count = 0 }, none)
      else (cb, some (sentinel circuit_open))
  | half_open ↦ (cb, none)
  | closed ↦ (cb, none)
]

after_failure : ℕ → CircuitBreaker → CircuitBreaker
after_failure now cb =
    let t = record cb { failures = cb.failures + 1; last_fail_time = now } in
    elim cb.state [
      | half_open ↦ record t { state = open_state }
      | _ ↦ if leb cb.max_failures t.failures then record t { state = open_state } else t
    ]

after_success : CircuitBreaker → CircuitBreaker
after_success cb = elim cb.state [
  | half_open ↦
      let t = record cb { success_count = cb.success_count + 1 } in
      if leb cb.half_open_succ t.success_count then record t { state = closed; failures = 0 } else t
  | closed ↦ record cb { failures = 0 }
  | open_state ↦ cb
]

unfoldable pub after_request : ℕ → Option Error → CircuitBreaker → CircuitBreaker
unfolding after_failure after_success
after_request now (some e) cb = after_failure now cb
after_request now none cb = after_success cb

-- Execute: what `fn` returned is `outcome`, and `called` tells whether it ran.
pub record Execution : Type 0 where
  pub breaker : CircuitBreaker
  pub called : Bool
  pub result : Option Error

after_before : ℕ → Option Error → CircuitBreaker × Option Error → Execution
unfolding after_request
after_before finished outcome (cb, some e) = record {
  breaker = cb;
  called = false;
  result = some e;
}
after_before finished outcome (cb, none) = record {
  breaker = after_request finished outcome cb;
  called = true;
  result = outcome;
}

unfoldable pub execute : ℕ → ℕ → Option Error → CircuitBreaker → Execution
unfolding before_request after_before
execute started finished outcome cb = after_before finished outcome (before_request started cb)
