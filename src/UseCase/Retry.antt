-- ===== src/UseCase/Retry.antt =====
-- internal/usecase/alert/retry.go: a notifier behind retries and a circuit breaker. What the
-- environment does at each attempt is data: the clock at both ends of the call, the reply that
-- the wrapped notifier gives if it is called, and the context's error if the context ends during
-- the wait. The length of a wait changes nothing but later clock readings, so the loop does not
-- mention it. Metrics and logging are left out.
pub mod Attempts
pub mod Breaker
pub mod Updates
use alert_bridge.Base.{
  ℕ, zero, suc, ◌+◌, String, Bool, true, false, Option, none, some, if◌then◌else◌,
}
use alert_bridge.Errors.{
  Error, Result, ok, err, sentinel, circuit_open, same_sentinel, is_transient_error,
}
use alert_bridge.Resilience.CircuitBreaker.{CircuitBreaker, Execution, execute}

pub record Attempt : Type 0 where
  pub started : ℕ
  pub finished : ℕ
  pub reply : Result String
  pub cancelled : Option Error

pub record Outcome : Type 0 where
  pub reply : Result String
  pub breaker : CircuitBreaker
  pub calls : ℕ

abbrev pub error_of {ℓ} : {A : Type ℓ} → Result A → Option Error
error_of (ok a) = none
error_of (err e) = some e

-- `cbErr == resilience.ErrCircuitOpen`: the sentinel itself, not an error that wraps it
abbrev pub is_circuit_open : Option Error → Bool
is_circuit_open (some (sentinel s)) = same_sentinel s circuit_open
is_circuit_open _ = false

-- The call of this attempt in front of the calls of the later ones.
abbrev count_call : Outcome → Outcome
count_call o = record o { calls = suc o.calls }

abbrev done : Result String → CircuitBreaker → ℕ → Outcome
done reply cb calls = record { reply = reply; breaker = cb; calls = calls }

-- The wait before the next attempt; no wait follows the last.
wait : ℕ → Error → Option Error → CircuitBreaker → Outcome → Outcome
wait zero e cancelled cb rest = done (err e) cb 1
wait (suc k) e none cb rest = count_call rest
wait (suc k) e (some stop) cb rest = done (err stop) cb 1

after_call : ℕ → Attempt → CircuitBreaker → Result String → Outcome → Outcome
unfolding wait
after_call k a cb (ok message) rest = done (ok message) cb 1
after_call k a cb (err e) rest =
    if is_transient_error e then wait k e a.cancelled cb rest else done (err e) cb 1

abbrev call_count : Bool → ℕ
call_count true = 1
call_count false = 0

-- One round: `k` attempts are left after it, with the outcome `rest` if it comes to them.
round : ℕ → Attempt → Execution → Outcome → Outcome
unfolding after_call
round k a x rest =
    if is_circuit_open x.result
    then done (err (sentinel circuit_open)) x.breaker (call_count x.called)
    else after_call k a x.breaker a.reply rest

-- `left` is the number of attempts still allowed; `attempt` counts from 1 as in the source. With
-- none allowed the loop ends at once, and the nil error and the empty message are returned.
unfoldable pub notify_from : ℕ → ℕ → (ℕ → Attempt) → CircuitBreaker → Outcome
unfolding round execute
notify_from zero attempt env cb = done (ok "") cb 0
notify_from (suc k) attempt env cb =
    let a = env attempt in
    let x = execute a.started a.finished (error_of a.reply) cb in
    let rest = notify_from k (suc attempt) env x.breaker in round k a x rest

-- Notify: `max_attempts` is the policy's.
unfoldable pub notify : ℕ → (ℕ → Attempt) → CircuitBreaker → Outcome
unfolding notify_from
notify max_attempts env cb = notify_from max_attempts 1 env cb

-- UpdateMessage has the same loop and no breaker.
pub record Update : Type 0 where
  pub result : Option Error
  pub calls : ℕ

wait_update : ℕ → Error → Option Error → Update → Update
wait_update zero e cancelled rest = record { result = some e; calls = 1 }
wait_update (suc k) e none rest = record rest { calls = suc rest.calls }
wait_update (suc k) e (some stop) rest = record { result = some stop; calls = 1 }

after_update : ℕ → Option Error → Option Error → Update → Update
unfolding wait_update
after_update k none cancelled rest = record { result = none; calls = 1 }
after_update k (some e) cancelled rest =
    if is_transient_error e
    then wait_update k e cancelled rest
    else record { result = some e; calls = 1 }

unfoldable pub update_from : ℕ → ℕ → (ℕ → Attempt) → Update
unfolding after_update
update_from zero attempt env = record { result = none; calls = 0 }
update_from (suc k) attempt env =
    let rest = update_from k (suc attempt) env in
    after_update k (error_of (env attempt).reply) (env attempt).cancelled rest

unfoldable pub update_message : ℕ → (ℕ → Attempt) → Update
unfolding update_from
update_message max_attempts env = update_from max_attempts 1 env
