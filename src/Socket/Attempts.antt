-- ===== src/Socket/Attempts.antt =====
-- The loop of Connect (internal/infrastructure/slack/socketmode_client.go): how often it tries, and
-- how it ends.
use mathlib.Core.Path.{subst}
use alert_bridge.Base.{
  ℕ, zero, suc, ◌+◌, ◌≤◌, ◌<◌, leb, String, ◌≡◌, ◌⊎◌, ◌∙◌, refl, inl, inr, true, false, Bool,
  Bool-cases, some, arith,
}
use alert_bridge.Errors.{Error, Result, ok, err}
use alert_bridge.UseCase.Notify.Sending.{Result-cases}
use alert_bridge.Socket.{
  CircuitBreaker, SocketModeClient, Outcome, connected, refused, opened, cancelled, Run, succeeded,
  record_failure, record_success, should_retry, connect_from, connect,
}

before_or_at : (i j : ℕ) → i ≤ j → (suc i ≤ j) ⊎ (i ≡ j)
before_or_at i j h = omega arith

none_before : {A : Type 0} (i j : ℕ) → i ≤ j → j < i → A
none_before i j p q = absurd (omega arith)

module _ (auth : ℕ → Result String) (stopped : ℕ → Bool) (clock : ℕ → ℕ) where
  -- An outcome against what the network does at the last attempt, from a breaker to another.
  abbrev pub IsFinished : Outcome → ℕ → ℕ → CircuitBreaker → CircuitBreaker → Type 0
  IsFinished connected first last b b' =
      ((team : String) × (auth last ≡ ok team))
      × (b'.consecutive_failures ≡ 0)
      × (b'.is_open ≡ false)
  IsFinished (opened e) first last b b' =
      (auth last ≡ err e)
      × (suc last + b.consecutive_failures ≡ b.max_failures + first)
      × (b'.is_open ≡ true)
  IsFinished cancelled first last b b' =
      ((e : Error) × (auth last ≡ err e)) × (stopped last ≡ true) × (b'.is_open ≡ false)
  IsFinished (refused n) first last b b' = ⊥

  abbrev pub IsReturned : ℕ → CircuitBreaker → Run → Type 0
  IsReturned first b r =
      (first ≤ r.last)
      × (r.last + b.consecutive_failures < b.max_failures + first)
      × ((j : ℕ) → first ≤ j → j < r.last → ((e : Error) × (auth j ≡ err e)) × (stopped j ≡ false))
      × IsFinished r.outcome first r.last b r.client.circuit_breaker

  -- The client after an attempt that failed and did not open the breaker.
  abbrev failed : ℕ → SocketModeClient → SocketModeClient
  failed first c = record c {
    circuit_breaker = record c.circuit_breaker {
      consecutive_failures = suc c.circuit_breaker.consecutive_failures;
      last_failure = clock first;
    };
  }

  abbrev connected_run : ℕ → String → SocketModeClient → Run
  connected_run first team c = record {
    outcome = connected;
    last = first;
    client = succeeded auth stopped clock first team c;
  }

  abbrev opened_run : ℕ → Error → SocketModeClient → Run
  opened_run first e c = record {
    outcome = opened e;
    last = first;
    client = record c {
      circuit_breaker = record (failed first c).circuit_breaker { is_open = true };
    };
  }

  abbrev cancelled_run : ℕ → SocketModeClient → Run
  cancelled_run first c = record { outcome = cancelled; last = first; client = failed first c }

  later-IsFinished :
      (o : Outcome) (first last : ℕ) (c : SocketModeClient) (b' : CircuitBreaker)
      → IsFinished o (suc first) last (failed first c).circuit_breaker b'
      → IsFinished o first last c.circuit_breaker b'
  later-IsFinished connected first last c b' f = f
  later-IsFinished (opened x) first last c b' (e, n, o) = (e, omega arith, o)
  later-IsFinished cancelled first last c b' f = f
  later-IsFinished (refused n) first last c b' f = absurd f

  later-IsReturned :
      (first : ℕ) (c : SocketModeClient) (r : Run)
      → ((e : Error) × (auth first ≡ err e))
      → stopped first ≡ false
      → IsReturned (suc first) (failed first c).circuit_breaker r
      → IsReturned first c.circuit_breaker r
  later-IsReturned first c r e s (p, q, before, f) = (
    omega arith,
    omega arith,
    λ j m n. elim (before_or_at first j m) [
      | inl l ↦ before j l n
      | inr i ↦ subst (λ k. ((x : Error) × (auth k ≡ err x)) × (stopped k ≡ false)) i (e, s)
    ],
    later-IsFinished r.outcome first r.last c r.client.circuit_breaker f,
  )

  connect_from-failed :
      (fuel first : ℕ) (c : SocketModeClient) (x : Error)
      → c.circuit_breaker.is_open ≡ false
      → auth first ≡ err x
      → leb c.circuit_breaker.max_failures (suc c.circuit_breaker.consecutive_failures) ≡ false
      → stopped first ≡ false
      → connect_from auth stopped clock (suc fuel) first c
        ≡ connect_from auth stopped clock fuel (suc first) (failed first c)
  unfolding connect_from should_retry record_failure
  connect_from-failed fuel first c x closed e o s = rw (closed, e, o, s) refl

  connect_from-IsReturned :
      (fuel first : ℕ) (c : SocketModeClient)
      → c.circuit_breaker.is_open ≡ false
      → c.circuit_breaker.consecutive_failures < c.circuit_breaker.max_failures
      → c.circuit_breaker.max_failures ≤ fuel + c.circuit_breaker.consecutive_failures
      → (r : Run) × (connect_from auth stopped clock fuel first c ≡ some r)
        × IsReturned first c.circuit_breaker r
  unfolding connect_from should_retry record_failure record_success
  connect_from-IsReturned zero first c closed below enough = absurd (omega arith)
  connect_from-IsReturned (suc fuel) first c closed below enough =
      elim (Result-cases (auth first)) [
        | inl (team, e) ↦ (
          connected_run first team c,
          rw (closed, e) refl,
          (omega arith, omega arith, λ j. none_before first j, ((team, e), refl, refl)),
        )
        | inr (x, e) ↦
            elim (Bool-cases
              (leb c.circuit_breaker.max_failures (suc c.circuit_breaker.consecutive_failures))) [
                | inl o ↦ (
                  opened_run first x c,
                  rw (closed, e, o) refl,
                  (omega arith, omega arith, λ j. none_before first j, (e, ground arith, refl)),
                )
                | inr o ↦ elim (Bool-cases (stopped first)) [
                  | inl s ↦ (
                    cancelled_run first c,
                    rw (closed, e, o, s) refl,
                    (omega arith, omega arith, λ j. none_before first j, ((x, e), s, closed)),
                  )
                  | inr s ↦
                      (let (r, run, is_returned) =
                          connect_from-IsReturned fuel (suc first) (failed first c) closed
                            (ground arith) (omega arith) in
                        (
                          r,
                          connect_from-failed fuel first c x closed e o s ∙ run,
                          later-IsReturned first c r (x, e) s is_returned,
                        ))
                ]
              ]
      ]

  -- A client whose breaker is closed and below its limit: Connect returns, after no more attempts than
  -- the breaker has failures left. Each attempt before the last failed and no wait behind one was
  -- cancelled. It returns connected when the last attempt succeeds, and the failures are counted
  -- from 0 again. It returns the error of the breaker when the last attempt failed and was the one
  -- that reaches the limit, and the breaker is open then. Or the last attempt failed below the
  -- limit and the wait behind it was cancelled.
  pub connect-IsReturned :
      (c : SocketModeClient)
      → c.circuit_breaker.is_open ≡ false
      → c.circuit_breaker.consecutive_failures < c.circuit_breaker.max_failures
      → (r : Run) × (connect auth stopped clock c ≡ some r) × IsReturned 0 c.circuit_breaker r
  unfolding connect
  connect-IsReturned c closed below =
      connect_from-IsReturned (suc c.circuit_breaker.max_failures) 0 c closed below (omega arith)

  -- Where the breaker is open, Connect makes no attempt and leaves the client as it is: nothing
  -- but a success closes a breaker.
  connect-stays_open :
      (c : SocketModeClient)
      → c.circuit_breaker.is_open ≡ true
      → connect auth stopped clock c
        ≡ some (record {
          outcome = refused c.circuit_breaker.consecutive_failures;
          last = 0;
          client = c;
        })
  unfolding connect connect_from should_retry
  connect-stays_open c e = rw e refl
