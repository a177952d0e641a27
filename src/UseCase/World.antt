-- ===== src/UseCase/World.antt =====
-- What a use case runs in: the Go heap, readings of the clock, fresh identifiers, the calls made to
-- external systems, and the store behind the repositories. An action may fail, and what it did
-- before stays done.
use alert_bridge.Base.{ℕ, suc, String, Option, List, ◌∷◌}
use alert_bridge.Base.Assoc.{Map}
use alert_bridge.Base.Heap.{Heap}
use alert_bridge.Errors.{Error, Result, ok, err, wrapped}
use alert_bridge.Entity.Alert.{Alert}
use alert_bridge.Entity.AckEvent.{AckEvent}
use alert_bridge.Entity.SilenceMark.{SilenceMark}

pub record PagerDutySubscriberNotification : Type 0 where
  pub subscriber_name : String
  pub pagerduty_user_id : String
  pub routing_key : String
  pub match_count : ℕ

-- A call to an external system, with the name of the system.
pub data Effect : Type 0 where
  notified : String → Alert → Effect
  mentioned : Alert → List String → Effect
  escalated : Alert → List PagerDutySubscriberNotification → Effect
  updated : String → String → Alert → Effect
  acknowledged_at : String → Alert → AckEvent → Effect
  replied : String → String → Effect
  modal_opened : String → Map (List String) → Effect

-- The readings of time.Now and uuid.New, by number.
pub record Supply : Type 0 where
  pub clock : ℕ → ℕ
  pub uuid : ℕ → String

pub record World (S : Type 0) : Type 0 where
  pub heap : Heap
  pub supply : Supply
  pub ticks : ℕ
  pub drawn : ℕ
  pub sent : List Effect  -- latest first
  pub store : S

abbrev pub Exec : Type 0 → Type 0 → Type 0
Exec S A = World S → Result A × World S

-- fmt.Errorf("message: %w", err)
abbrev pub wrap_result : {A : Type 0} → String → Result A → Result A
wrap_result message (ok a) = ok a
wrap_result message (err e) = err (wrapped message e)

module _ {S A : Type 0} where
  abbrev pub pure : A → Exec S A
  pure a w = (ok a, w)

  abbrev pub raise : Error → Exec S A
  raise e w = (err e, w)

  abbrev pub wrapping : String → Exec S A → Exec S A
  wrapping message m w = let (r, w') = m w in (wrap_result message r, w')

  -- The error of an action as a value.
  abbrev pub attempt : Exec S A → Exec S (Result A)
  attempt m w = let (r, w') = m w in (ok r, w')

module _ {S A B : Type 0} where
  abbrev pub continue : Result A → (A → Exec S B) → Exec S B
  continue (ok a) f w = f a w
  continue (err e) f w = (err e, w)

  infixl 5 ◌>>=◌ ◌>>◌
  abbrev pub ◌>>=◌ : Exec S A → (A → Exec S B) → Exec S B
  ◌>>=◌ m f w = let (r, w') = m w in continue r f w'

  abbrev pub ◌>>◌ : Exec S A → Exec S B → Exec S B
  m >> n = m >>= λ _. n

module _ {S : Type 0} where
  -- time.Now().UTC()
  abbrev pub now : Exec S ℕ
  now w = (ok (w.supply.clock w.ticks), record w { ticks = suc w.ticks })

  -- uuid.New().String()
  abbrev pub fresh_id : Exec S String
  fresh_id w = (ok (w.supply.uuid w.drawn), record w { drawn = suc w.drawn })

  abbrev pub perform : Effect → Exec S (Unit {0})
  perform e w = (ok tt, record w { sent = e ∷ w.sent })

-- The part of repository.AlertRepository that the use cases call.
pub record AlertStore (S : Type 0) : Type 0 where
  pub save : Alert → Exec S (Unit {0})
  pub update : Alert → Exec S (Unit {0})
  pub find_by_id : String → Exec S (Option Alert)
  pub find_by_fingerprint : String → Exec S (List Alert)
  pub find_by_external_reference : String → String → Exec S (Option Alert)
  pub get_active_alerts : String → Exec S (List Alert)

-- The part of repository.SilenceRepository that the use cases call.
pub record SilenceStore (S : Type 0) : Type 0 where
  pub save_silence : SilenceMark → Exec S (Unit {0})
  pub find_matching_alert : Alert → Exec S (List SilenceMark)
  pub find_silence_by_id : String → Exec S (Option SilenceMark)
  pub find_active_silences : Exec S (List SilenceMark)
  pub delete_silence : String → Exec S (Unit {0})

-- The part of repository.AckEventRepository that the use cases call.
pub record AckEventStore (S : Type 0) : Type 0 where
  pub save_ack_event : AckEvent → Exec S (Unit {0})
