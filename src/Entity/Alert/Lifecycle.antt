-- ===== src/Entity/Alert/Lifecycle.antt =====
-- The life of one alert: active, acknowledged, resolved.
use alert_bridge.Base.{ℕ, String, ◌≡◌, refl, true, false, Option, none, some, List, [], ◌∷◌, arith}
use alert_bridge.Errors.{sentinel, alert_already_resolved}
use alert_bridge.Entity.Alert.{
  Alert, AlertState, active, acknowledged, resolved, acknowledge, resolve, is_active, is_resolved,
}

-- The two calls that move an alert.
pub data Move : Type 0 where
  acks : String → ℕ → Move
  resolves : ℕ → Move

abbrev pub move : Alert → Move → Alert
move a (acks by at) = (acknowledge by at a).0
move a (resolves at) = resolve at a

unfoldable pub run : Alert → List Move → Alert
run a [] = a
run a (m ∷ ms) = run (move a m) ms

-- What the state says about the optional fields.
abbrev pub StateFits : AlertState → Option ℕ → String → Option ℕ → Type 0
StateFits active acked by closed = (acked ≡ none) × (by ≡ "") × (closed ≡ none)
StateFits acknowledged acked by closed = ((t : ℕ) × (acked ≡ some t)) × (closed ≡ none)
StateFits resolved acked by closed = (t : ℕ) × (closed ≡ some t)

abbrev pub IsConsistent : Alert → Type 0
IsConsistent a = StateFits a.state a.acked_at a.acked_by a.resolved_at

acks-IsConsistent :
    (by : String) (at : ℕ) (a : Alert) → IsConsistent a → IsConsistent (acknowledge by at a).0
unfolding acknowledge
acks-IsConsistent by at a c = go a.state refl c
  where
    go :
        (s : AlertState)
        → a.state ≡ s
        → StateFits s a.acked_at a.acked_by a.resolved_at
        → IsConsistent (acknowledge by at a).0
    go active e c = rw (e, acknowledge) ((at, refl), c.2)
    go acknowledged e c = rw (e, acknowledge) (rw e c)
    go resolved e c = rw (e, acknowledge) (rw e c)

-- An alert that the two calls move stays consistent: it has no acknowledgement while it is
-- active, a time of acknowledgement and none of resolution while it is acknowledged, and a time
-- of resolution once it is resolved.
pub run-IsConsistent : (a : Alert) (ms : List Move) → IsConsistent a → IsConsistent (run a ms)
unfolding run resolve
run-IsConsistent a [] c = c
run-IsConsistent a (acks by at ∷ ms) c =
    run-IsConsistent (move a (acks by at)) ms (acks-IsConsistent by at a c)
run-IsConsistent a (resolves at ∷ ms) c = run-IsConsistent (resolve at a) ms (at, refl)

-- The first call of a history, if it acknowledges.
abbrev pub first_ack : List Move → Option (String × ℕ)
first_ack (acks by at ∷ ms) = some (by, at)
first_ack _ = none

abbrev pub credited : Option (String × ℕ) → Alert → String × Option ℕ
credited none a = (a.acked_by, a.acked_at)
credited (some (by, at)) a = (by, some at)

run-keeps_credit :
    (a : Alert) (ms : List Move)
    → is_active a ≡ false
    → ((run a ms).acked_by ≡ a.acked_by)
      × ((run a ms).acked_at ≡ a.acked_at)
      × (is_active (run a ms) ≡ false)
unfolding run is_active acknowledge resolve
run-keeps_credit a [] h = (refl, refl, h)
run-keeps_credit a (acks by at ∷ ms) h = ground (arith, run-keeps_credit (acknowledge by at a).0 ms)
run-keeps_credit a (resolves at ∷ ms) h = ground (arith, run-keeps_credit (resolve at a) ms)

-- Whatever happens to an active alert, the credit for its acknowledgement goes to the first call
-- of the history if that acknowledges, and is never given afterwards.
pub first_ack_wins :
    (a : Alert) (ms : List Move)
    → is_active a ≡ true
    → ((run a ms).acked_by, (run a ms).acked_at) ≡ credited (first_ack ms) a
unfolding run is_active acknowledge resolve
first_ack_wins a [] h = refl
first_ack_wins a (acks by at ∷ ms) h = ground (arith, run-keeps_credit (acknowledge by at a).0 ms)
first_ack_wins a (resolves at ∷ ms) h = ground (arith, run-keeps_credit (resolve at a) ms)

-- A resolved alert stays resolved whatever is called, and every attempt to acknowledge it
-- reports that it is resolved.
pub resolved_is_final :
    (a : Alert) (ms : List Move) (by : String) (at : ℕ)
    → is_resolved a ≡ true
    → (is_resolved (run a ms) ≡ true)
      × (acknowledge by at (run a ms) ≡ (run a ms, some (sentinel alert_already_resolved)))
unfolding run is_resolved acknowledge resolve
resolved_is_final a [] by at h = ground arith
resolved_is_final a (acks b t ∷ ms) by at h =
    ground (arith, resolved_is_final (acknowledge b t a).0 ms by at)
resolved_is_final a (resolves t ∷ ms) by at h =
    ground (arith, resolved_is_final (resolve t a) ms by at)
