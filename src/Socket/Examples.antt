-- ===== src/Socket/Examples.antt =====
-- Tests and instances for the connection of Slack's socket mode.
use alert_bridge.Base.{ℕ, zero, suc, ◌+◌, ◌*◌, String, ◌≡◌, refl, false, some, arith}
use alert_bridge.Errors.{Result, ok, err, other}
use alert_bridge.Socket.{
  ReconnectionConfig, SocketModeClient, Run, opened, new_circuit_breaker, calculate_backoff,
  connect, connect_from, should_retry, record_failure,
}
use alert_bridge.Socket.Attempts.{IsReturned, connect-IsReturned}

-- The third attempt succeeds.
abbrev auth : ℕ → Result String
auth zero = err (other "timeout")
auth (suc zero) = err (other "timeout")
auth (suc (suc n)) = ok "T1"

abbrev client : SocketModeClient
client = record {
  circuit_breaker = new_circuit_breaker 5;
  is_connected = false;
  connection_id = "";
  last_reconnect = 0;
}

connect-IsReturned_example :
    (r : Run) × (connect auth (λ n. false) (λ n. n) client ≡ some r)
    × IsReturned auth (λ n. false) (λ n. n) 0 client.circuit_breaker r
unfolding new_circuit_breaker
connect-IsReturned_example = connect-IsReturned auth (λ n. false) (λ n. n) client refl (omega arith)

five_failures :
    (r : Run) × (connect (λ n. err (other "refused")) (λ n. false) (λ n. n) client ≡ some r)
    × (r.outcome ≡ opened (other "refused"))
    × (r.last ≡ 4)
unfolding connect connect_from should_retry record_failure new_circuit_breaker
five_failures = (_, refl, refl, refl)

abbrev config : ReconnectionConfig
config = record { initial_backoff = 500; max_backoff = 60_000; max_retries = 5 }

capped : calculate_backoff (λ n. 500 + n * 20_000) config 4 ≡ 60_000
unfolding calculate_backoff
capped = refl
