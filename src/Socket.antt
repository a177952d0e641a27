-- ===== src/Socket.antt =====
-- internal/infrastructure/slack/socketmode_reconnect.go, and Connect of socketmode_client.go in the same
-- directory. What the network does is given: `auth n` is what the test of authentication of attempt
-- number n answers, the team id or an error, `stopped n` says that the context ends in the wait behind
-- it, and `clock n` is the time then. `grown n` is the product of the initial backoff and the power of the
-- multiplier, floating-point numbers, cut off to a whole one.
pub mod Attempts
pub mod Examples
use alert_bridge.Base.{
  ℕ, zero, suc, ltb, leb, String, Bool, true, false, not, Option, none, some, if◌then◌else◌,
}
use alert_bridge.Errors.{Error, Result, ok, err}

pub record ReconnectionConfig : Type 0 where
  pub initial_backoff : ℕ
  pub max_backoff : ℕ
  pub max_retries : ℕ

pub record CircuitBreaker : Type 0 where
  pub consecutive_failures : ℕ
  pub max_failures : ℕ
  pub is_open : Bool
  pub last_failure : ℕ

unfoldable pub new_circuit_breaker : ℕ → CircuitBreaker
new_circuit_breaker max = record {
  consecutive_failures = 0;
  max_failures = max;
  is_open = false;
  last_failure = 0;
}

unfoldable pub record_failure : ℕ → CircuitBreaker → Bool × CircuitBreaker
record_failure now b =
    let failed : CircuitBreaker = record b {
      consecutive_failures = suc b.consecutive_failures;
      last_failure = now;
    } in
    if leb b.max_failures (suc b.consecutive_failures)
    then (true, record failed { is_open = true })
    else (false, failed)

unfoldable pub record_success : CircuitBreaker → CircuitBreaker
record_success b = record b { consecutive_failures = 0; is_open = false }

unfoldable pub should_retry : CircuitBreaker → Bool
should_retry b = not b.is_open

unfoldable pub calculate_backoff : (ℕ → ℕ) → ReconnectionConfig → ℕ → ℕ
calculate_backoff grown cfg attempt =
    if ltb cfg.max_backoff (grown attempt) then cfg.max_backoff else grown attempt

-- The part of the client that Connect changes.
pub record SocketModeClient : Type 0 where
  pub circuit_breaker : CircuitBreaker
  pub is_connected : Bool
  pub connection_id : String
  pub last_reconnect : ℕ

-- How Connect returns: `refused` is the error of a breaker that is open, with its failures, `opened` that
-- of one that opens, and `cancelled` the error of the context.
pub data Outcome : Type 0 where
  connected : Outcome
  refused : ℕ → Outcome
  opened : Error → Outcome
  cancelled : Outcome

-- `last` is the number of the attempt at which Connect returned.
pub record Run : Type 0 where
  pub outcome : Outcome
  pub last : ℕ
  pub client : SocketModeClient

module _ (auth : ℕ → Result String) (stopped : ℕ → Bool) (clock : ℕ → ℕ) where
  abbrev pub succeeded : ℕ → String → SocketModeClient → SocketModeClient
  succeeded attempt team c = record c {
    circuit_breaker = record_success c.circuit_breaker;
    is_connected = true;
    connection_id = team;
    last_reconnect = clock attempt;
  }

  abbrev pub after_failure :
      ℕ
      → Error
      → (SocketModeClient → Option Run)
      → Bool × CircuitBreaker
      → SocketModeClient
      → Option Run
  after_failure attempt e rest (is_open, b) c =
      if is_open
      then some
          (record { outcome = opened e; last = attempt; client = record c { circuit_breaker = b } })
      else if stopped attempt
      then some (record {
        outcome = cancelled;
        last = attempt;
        client = record c { circuit_breaker = b };
      })
      else rest (record c { circuit_breaker = b })

  abbrev pub after_attempt :
      ℕ → (SocketModeClient → Option Run) → Result String → SocketModeClient → Option Run
  after_attempt attempt rest (ok team) c =
      some (record { outcome = connected; last = attempt; client = succeeded attempt team c })
  after_attempt attempt rest (err e) c =
      after_failure attempt e rest (record_failure (clock attempt) c.circuit_breaker) c

  -- The loop of Connect from an attempt on; `none` where the fuel is used up.
  unfoldable pub connect_from : ℕ → ℕ → SocketModeClient → Option Run
  connect_from zero attempt c = none
  connect_from (suc fuel) attempt c =
      let rest = connect_from fuel (suc attempt) in
      if should_retry c.circuit_breaker
      then after_attempt attempt rest (auth attempt) c
      else some (record {
        outcome = refused c.circuit_breaker.consecutive_failures;
        last = attempt;
        client = c;
      })

  -- Connect; with one round more than the breaker allows failures the fuel is enough.
  unfoldable pub connect : SocketModeClient → Option Run
  connect c = connect_from (suc c.circuit_breaker.max_failures) 0 c
