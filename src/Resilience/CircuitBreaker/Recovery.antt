-- ===== src/Resilience/CircuitBreaker/Recovery.antt =====
-- Opening, rejecting and recovering, request by request.
use alert_bridge.Base.{
  ℕ, ◌+◌, ◌-◌, ◌≤◌, ◌<◌, String, ◌≡◌, refl, ◌≢◌, ◌⊎◌, true, false, Option, none, some, List, [],
  ◌∷◌, length, arith,
}
use alert_bridge.Errors.{Error, sentinel, circuit_open}
use alert_bridge.Resilience.CircuitBreaker.{
  CircuitBreaker, closed, open_state, half_open, execute, new_circuit_breaker,
}

-- A request, alone on the breaker: when it starts and ends, and what `fn` returns.
pub record Request : Type 0 where
  pub started : ℕ
  pub finished : ℕ
  pub outcome : Option Error

-- Requests one after the other.
unfoldable pub serve : CircuitBreaker → List Request → CircuitBreaker
unfolding execute
serve cb [] = cb
serve cb (r ∷ rs) = serve (execute r.started r.finished r.outcome cb).breaker rs

abbrev pub AllFail : List Request → Type 0
AllFail [] = Unit
AllFail (r ∷ rs) = (r.outcome ≢ none) × AllFail rs

failing_step :
    (cb : CircuitBreaker) (r : Request)
    → cb.state ≡ closed
    → r.outcome ≢ none
    → cb.failures + 1 < cb.max_failures
    → let cb' = (execute r.started r.finished r.outcome cb).breaker in
      (cb'.state ≡ closed) × (cb'.failures ≡ cb.failures + 1) × (cb'.max_failures ≡ cb.max_failures)
unfolding execute
failing_step cb r c f l = ground arith

last_failure :
    (cb : CircuitBreaker) (r : Request)
    → cb.state ≡ closed
    → r.outcome ≢ none
    → cb.max_failures ≤ cb.failures + 1
    → (execute r.started r.finished r.outcome cb).breaker.state ≡ open_state
unfolding execute
last_failure cb r c f l = ground arith

fails_below :
    (cb : CircuitBreaker) (rs : List Request)
    → cb.state ≡ closed
    → AllFail rs
    → cb.failures + length rs < cb.max_failures
    → ((serve cb rs).state ≡ closed) × ((serve cb rs).failures ≡ cb.failures + length rs)
unfolding serve
fails_below cb [] c f l = (c, omega arith)
fails_below cb (r ∷ rs) c f l =
    let s = failing_step cb r c f.0 (omega arith) in
    let ih =
      fails_below (execute r.started r.finished r.outcome cb).breaker rs s.0 f.1 (omega arith) in
    (ih.0, omega arith)

fails_up_to :
    (cb : CircuitBreaker) (rs : List Request)
    → cb.state ≡ closed
    → AllFail rs
    → cb.failures < cb.max_failures
    → cb.failures + length rs ≡ cb.max_failures
    → (serve cb rs).state ≡ open_state
unfolding serve
fails_up_to cb [] c f l e = absurd (omega arith)
fails_up_to cb (r ∷ []) c f l e = last_failure cb r c f.0 (omega arith)
fails_up_to cb (r ∷ q ∷ rs) c f l e =
    let s = failing_step cb r c f.0 (omega arith) in
    fails_up_to (execute r.started r.finished r.outcome cb).breaker (q ∷ rs) s.0 f.1 (omega arith)
      (omega arith)

-- A new breaker with a positive limit is closed after fewer consecutive failures than the limit,
-- and open after exactly as many.
pub opens_at_limit :
    (name : String) (max_failures timeout : ℕ) (rs : List Request)
    → 0 < max_failures
    → AllFail rs
    → (length rs < max_failures
        → (serve (new_circuit_breaker name max_failures timeout) rs).state ≡ closed)
      × (length rs ≡ max_failures
          → (serve (new_circuit_breaker name max_failures timeout) rs).state ≡ open_state)
unfolding new_circuit_breaker
opens_at_limit name max_failures timeout rs h f = (
  λ l. (fails_below (new_circuit_breaker name max_failures timeout) rs refl f (omega arith)).0,
  λ e.
      fails_up_to (new_circuit_breaker name max_failures timeout) rs refl f (omega arith)
        (omega arith),
)

-- `fn` is kept from running exactly by an open breaker whose last failure is no more than the
-- timeout ago; the request then ends with the circuit error and changes nothing. Otherwise the
-- request ends with what `fn` returned.
pub execute-rejects_iff :
    (started finished : ℕ) (outcome : Option Error) (cb : CircuitBreaker)
    → ((cb.state ≡ open_state)
        × (started - cb.last_fail_time ≤ cb.timeout)
        × (execute started finished outcome cb
            ≡ record { breaker = cb; called = false; result = some (sentinel circuit_open) }))
      ⊎ (((cb.state ≢ open_state) ⊎ (cb.timeout < started - cb.last_fail_time))
          × ((execute started finished outcome cb).called ≡ true)
          × ((execute started finished outcome cb).result ≡ outcome))
unfolding execute
execute-rejects_iff started finished outcome cb = ground arith

-- Once the timeout of an open breaker has passed, two requests that succeed close it and clear its
-- failures; one that fails first opens it again, dated at its own end.
pub half_open_recovers :
    (cb : CircuitBreaker) (r q : Request)
    → cb.state ≡ open_state
    → cb.half_open_succ ≡ 2
    → cb.timeout < r.started - cb.last_fail_time
    → let once = serve cb (r ∷ []) in
      let twice = serve cb (r ∷ q ∷ []) in
      (r.outcome ≡ none
        → q.outcome ≡ none
        → (once.state ≡ half_open) × (twice.state ≡ closed) × (twice.failures ≡ 0))
      × (r.outcome ≢ none → (once.state ≡ open_state) × (once.last_fail_time ≡ r.finished))
unfolding serve
half_open_recovers cb r q o n t = ground arith
