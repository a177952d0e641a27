-- ===== src/UseCase/Retry/Breaker.antt =====
-- Retries and the circuit breaker together.
use native.Mathlib.Nat.{add-zero, add-suc, suc-add}
use alert_bridge.Base.{
  ℕ, zero, suc, ◌+◌, ◌-◌, ◌≤◌, ◌<◌, ◌≡◌, sym, ap, ◌∙◌, ◌≢◌, true, false, none, arith,
}
use alert_bridge.Errors.{Error, err, sentinel, circuit_open, is_transient_error}
use alert_bridge.Resilience.CircuitBreaker.{CircuitBreaker, Execution, closed, open_state, execute}
use alert_bridge.UseCase.Retry.{Attempt, Outcome, error_of, notify_from, notify, round}
use alert_bridge.UseCase.Retry.Attempts.{AllRetried}

-- While the breaker is open and its timeout has not passed, Notify does not call the notifier at
-- all, reports the open circuit, and leaves the breaker as it was.
pub notify-blocked :
    (k : ℕ) (env : ℕ → Attempt) (cb : CircuitBreaker)
    → cb.state ≡ open_state
    → (env 1).started - cb.last_fail_time ≤ cb.timeout
    → notify (suc k) env cb
      ≡ record { reply = err (sentinel circuit_open); breaker = cb; calls = 0 }
unfolding notify
notify-blocked k env cb o t = ground arith

-- An error that is not transient ends Notify: a first call that fails with one is the only call,
-- and its error is returned, unless the breaker kept it from being made.
pub notify-permanent :
    (k : ℕ) (env : ℕ → Attempt) (cb : CircuitBreaker) (e : Error)
    → cb.state ≢ open_state
    → (env 1).reply ≡ err e
    → is_transient_error e ≡ false
    → ((notify (suc k) env cb).reply ≡ err e) × ((notify (suc k) env cb).calls ≡ 1)
unfolding notify
notify-permanent k env cb e o r t = ground arith

abbrev ran : Attempt → CircuitBreaker → Execution
ran a cb = execute a.started a.finished (error_of a.reply) cb

module _ (a : Attempt) (cb : CircuitBreaker) (rest : Outcome) (e : Error) (c : cb.state ≡ closed)
    (r : a.reply ≡ err e) (t : is_transient_error e ≡ true) (w : a.cancelled ≡ none) where
  round-last :
      ((round zero a (ran a cb) rest).reply ≡ err e) × ((round zero a (ran a cb) rest).calls ≡ 1)
  unfolding round execute is_transient_error
  round-last = (ground arith, ground arith)

  round-more :
      (k : ℕ)
      → ((round (suc k) a (ran a cb) rest).reply ≡ rest.reply)
        × ((round (suc k) a (ran a cb) rest).calls ≡ suc rest.calls)
  unfolding round execute is_transient_error
  round-more k = (ground arith, ground arith)

  ran-closed :
      cb.failures + 1 < cb.max_failures
      → ((ran a cb).breaker.state ≡ closed)
        × ((ran a cb).breaker.failures ≡ cb.failures + 1)
        × ((ran a cb).breaker.max_failures ≡ cb.max_failures)
  unfolding execute
  ran-closed h = ground arith

exhausts_from :
    (k n : ℕ) (env : ℕ → Attempt) (cb : CircuitBreaker)
    → cb.state ≡ closed
    → cb.failures + suc k ≤ cb.max_failures
    → AllRetried (suc k) n env
    → ((notify_from (suc k) n env cb).calls ≡ suc k)
      × ((notify_from (suc k) n env cb).reply ≡ (env (n + k)).reply)
unfolding notify_from
exhausts_from zero n env cb c h ((e, r, t, w), _) =
    let (re, ca) =
      round-last (env n) cb (notify_from zero (suc n) env (ran (env n) cb).breaker) e c r t w in
    (ca, re ∙ sym r ∙ ap (λ m. (env m).reply) (sym (add-zero n)))
exhausts_from (suc k) n env cb c h ((e, r, t, w), all) =
    let cb' = (ran (env n) cb).breaker in
    let rest = notify_from (suc k) (suc n) env cb' in
    let (re, ca) = round-more (env n) cb rest e c r t w k in
    let (c', f', m') = ran-closed (env n) cb rest e c r t w (omega arith) in
    let (calls, reply) = exhausts_from k (suc n) env cb' c' (omega arith) all in
    (ca ∙ ap suc calls, re ∙ reply ∙ ap (λ m. (env m).reply) (suc-add n k ∙ sym (add-suc n k)))

-- With a closed breaker that can take the failures of every allowed attempt, Notify uses up all its
-- attempts if each fails with a transient error and is waited out, and returns the last error.
pub notify-exhausts :
    (k : ℕ) (env : ℕ → Attempt) (cb : CircuitBreaker)
    → cb.state ≡ closed
    → cb.failures + suc k ≤ cb.max_failures
    → AllRetried (suc k) 1 env
    → ((notify (suc k) env cb).calls ≡ suc k)
      × ((notify (suc k) env cb).reply ≡ (env (suc k)).reply)
unfolding notify
notify-exhausts k env cb c h all =
    let (calls, reply) = exhausts_from k 1 env cb c h all in
    (calls, reply ∙ ap (λ m. (env m).reply) (omega arith))
