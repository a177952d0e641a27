-- ===== src/UseCase/SyncAck.antt =====
-- internal/usecase/ack/sync_ack.go. The transaction manager is a parameter; the one of the
-- in-memory storage, in internal/app/storage.go, only runs the function. Logs and metrics are left
-- out.
pub mod Calls
pub mod Stored
use alert_bridge.Base.{
  ℕ, String, Bool, not, ◌&&◌, ◌||◌, Option, none, some, List, [], ◌∷◌, ◌++◌, ◌==◌, is_set,
  if◌then◌else◌,
}
use alert_bridge.Base.Heap.{Heap}
use alert_bridge.Base.Int.{ℤ}
use alert_bridge.Errors.{
  Error, Result, ok, err, sentinel, wrapped, errors_is, alert_not_found, alert_already_acked,
  alert_already_resolved,
}
use alert_bridge.Entity.Alert.{Alert, acknowledge, has_external_reference}
use alert_bridge.Entity.AckEvent.{
  AckEvent, AckSource, source_text, new_ack_event, with_note, with_duration,
}
use alert_bridge.UseCase.World.{
  World, Exec, Effect, AlertStore, AckEventStore, acknowledged_at, pure, raise, wrapping, attempt,
  now, fresh_id, ◌>>=◌, ◌>>◌,
}

pub record SyncAckInput : Type 0 where
  pub alert_id : String
  pub source : AckSource
  pub user_id : String
  pub user_email : String
  pub user_name : String
  pub note : String
  pub duration : Option ℤ

pub record SyncAckOutput : Type 0 where
  pub alert : Alert
  pub ack_event : AckEvent
  pub synced_to : List String
  pub sync_errors : List (String × Error)

pub record AckSyncer : Type 0 where
  pub name : String
  pub supports_ack : Bool
  pub acknowledge : List Effect → Alert → AckEvent → Result (Unit {0})

pub record SyncAckUseCase (S : Type 0) : Type 0 where
  pub alert_repo : AlertStore S
  pub ack_event_repo : AckEventStore S
  pub with_transaction : Exec S Alert → Exec S Alert
  pub syncers : List AckSyncer

abbrev pub noted : String → AckEvent → AckEvent
noted note e = if is_set note then with_note note e else e

abbrev pub lasting : Option ℤ → AckEvent → AckEvent
lasting none e = e
lasting (some d) e = with_duration d e

-- An alert that is already acknowledged or resolved is no reason to stop.
unfoldable pub is_tolerated : Error → Bool
unfolding errors_is
is_tolerated e = errors_is e alert_already_acked || errors_is e alert_already_resolved

-- The three conditions of the loop, on the way to a call.
unfoldable pub should_sync : AckSource → Heap → Alert → AckSyncer → Bool
unfolding has_external_reference
should_sync source h a s =
    s.supports_ack && not (s.name == source_text source) && has_external_reference s.name h a

abbrev pub sync_failed : SyncAckOutput → String → Error → SyncAckOutput
sync_failed out name e = record out { sync_errors = out.sync_errors ++ (name, e) ∷ [] }

abbrev pub sync_done : SyncAckOutput → String → SyncAckOutput
sync_done out name = record out { synced_to = out.synced_to ++ name ∷ [] }

module _ {S : Type 0} where
  unfoldable pub make_event : SyncAckInput → Exec S AckEvent
  unfolding new_ack_event with_note with_duration
  make_event input = do
    id ← fresh_id
    at ← now
    pure (
        lasting input.duration (
          noted input.note (
            new_ack_event id at input.alert_id input.source input.user_id input.user_email
              input.user_name)))

  tolerate : Option Error → Exec S (Unit {0})
  unfolding is_tolerated
  tolerate none = pure tt
  tolerate (some e) = if is_tolerated e then pure tt else raise (wrapped "acknowledging alert" e)

  -- the function that the transaction runs
  unfoldable pub save_ack : SyncAckUseCase S → SyncAckInput → Alert → AckEvent → Exec S Alert
  unfolding acknowledge tolerate
  save_ack uc input a event = do
    wrapping "saving ack event" (uc.ack_event_repo.save_ack_event event)
    at ← now
    tolerate (acknowledge input.user_email at a).1
    wrapping "updating alert" (uc.alert_repo.update (acknowledge input.user_email at a).0)
    pure (acknowledge input.user_email at a).0

  abbrev pub call_syncer : AckSyncer → Alert → AckEvent → Exec S (Unit {0})
  call_syncer s a event w =
      (s.acknowledge w.sent a event, record w { sent = acknowledged_at s.name a event ∷ w.sent })

  unfoldable pub sync_to_external_systems :
      List AckSyncer → Alert → AckEvent → AckSource → SyncAckOutput → Exec S SyncAckOutput
  unfolding should_sync
  sync_to_external_systems [] a event source out w = (ok out, w)
  sync_to_external_systems (s ∷ ss) a event source out w =
      let skip = sync_to_external_systems ss a event source out w in
      let sync = (do
        r ← attempt (call_syncer s a event)
        elim r [
          | err e ↦ sync_to_external_systems ss a event source (sync_failed out s.name e)
          | ok done ↦ sync_to_external_systems ss a event source (sync_done out s.name)
        ]) in
      if should_sync source w.heap a s then sync w else skip

  sync_found : SyncAckUseCase S → SyncAckInput → Option Alert → Exec S SyncAckOutput
  unfolding make_event save_ack sync_to_external_systems
  sync_found uc input none = raise (sentinel alert_not_found)
  sync_found uc input (some a) = do
    event ← make_event input
    a' ← uc.with_transaction (save_ack uc input a event)
    sync_to_external_systems uc.syncers a' event input.source
        (record { alert = a'; ack_event = event; synced_to = []; sync_errors = [] })

  unfoldable pub execute : SyncAckUseCase S → SyncAckInput → Exec S SyncAckOutput
  unfolding sync_found
  execute uc input = do
    found ← wrapping "finding alert" (uc.alert_repo.find_by_id input.alert_id)
    sync_found uc input found
