-- ===== src/UseCase/Examples.antt =====
-- Tests and instances for the use cases.
use alert_bridge.Base.{
  ℕ, suc, ◌+◌, ◌≤◌, ◌<◌, String, ◌≡◌, ◌≢◌, refl, true, none, some, [], ◌∷◌, eq_iff, ltb,
  if◌then◌else◌, arith,
}
use alert_bridge.Base.Assoc.{lookup}
use alert_bridge.Errors.{Error, ok, err, transient, domain_error, other}
use alert_bridge.Entity.Alert.{acknowledge}
use alert_bridge.Memory.AlertRepository
use alert_bridge.Memory.AlertRepository.Fingerprints.{IsIndexed}
use alert_bridge.Memory.AlertRepository.Firing.{IsDeduplicated}
use alert_bridge.Memory.AckEventRepository.{save_event}
use alert_bridge.Memory.Examples.{
  one_alert-IsIndexed, one_alert-IsDeduplicated, one_silence-IsListed,
}
use alert_bridge.Resilience.CircuitBreaker.{CircuitBreaker, closed, open_state}
use alert_bridge.Entity.AckEvent.{slack}
use alert_bridge.UseCase.Retry.{Attempt, notify}
use alert_bridge.UseCase.Retry.Attempts.{AllRetried, notify_lem}
use alert_bridge.UseCase.AlertInput.{ProcessAlertInput, ProcessAlertOutput, empty_output}
use alert_bridge.Base.{inl, inr}
use alert_bridge.UseCase.MemoryStores.{memory_alert_store}
use alert_bridge.UseCase.Notify.Sending.{Result-cases}
use alert_bridge.UseCase.Notify.{matched_subscribers, send_notifications}
use alert_bridge.UseCase.Notify.Answers.{
  AreDistinct, IsSilent, Answered, send_notifications-Answered,
}
use alert_bridge.UseCase.ProcessAlert
use alert_bridge.UseCase.ProcessAlert.Dedup
use alert_bridge.UseCase.ProcessAlert.Dedup.{execute-dedup}
use alert_bridge.UseCase.ProcessAlert.Silenced.{execute-silenced}
use alert_bridge.UseCase.SyncAck
use alert_bridge.UseCase.SyncAck.{
  AckSyncer, SyncAckInput, SyncAckOutput, should_sync, sync_to_external_systems,
}
use alert_bridge.UseCase.SyncAck.Calls.{Synced, sync_to_external_systems-calls}
use alert_bridge.UseCase.SyncAck.Stored
use alert_bridge.UseCase.SyncAck.Stored.{execute-stored}
use alert_bridge.Samples.{maintenance, morning, input, use_case, disk_full, ack}

abbrev new_input : ProcessAlertInput
new_input = record input { fingerprint = "fp-3" }

execute-dedup_example :
    IsDeduplicated
      (ProcessAlert.execute (Dedup.in_memory use_case) new_input morning).1.store.alerts
execute-dedup_example = execute-dedup use_case new_input morning one_alert-IsDeduplicated

fp_is_set : input.fingerprint ≢ ""
fp_is_set e = ground (arith, eq_iff "fp-2" "")

execute-silenced_example :
    (ProcessAlert.execute (Dedup.in_memory use_case) input morning).1.sent ≡ []
unfolding lookup
execute-silenced_example =
    execute-silenced use_case input "s-1" maintenance morning one_silence-IsListed refl refl
      fp_is_set (omega arith) (omega arith) refl

abbrev pager : AckSyncer
pager = record { name = "pagerduty"; supports_ack = true; acknowledge = λ sent a e. ok tt }

abbrev ack_input : SyncAckInput
ack_input = record {
  alert_id = "a-1";
  source = slack;
  user_id = "U1";
  user_email = "kim@example.com";
  user_name = "kim";
  note = "on it";
  duration = none;
}

execute-stored_example :
    (out : SyncAckOutput) × ((SyncAck.execute (Stored.in_memory (pager ∷ [])) ack_input morning).0
      ≡ ok out)
    × (out.alert ≡ (acknowledge "kim@example.com" 101 disk_full).0)
    × (AlertRepository.find_by_id "a-1"
          (SyncAck.execute (Stored.in_memory (pager ∷ [])) ack_input morning).1.store.alerts
        ≡ some out.alert)
    × ((SyncAck.execute (Stored.in_memory (pager ∷ [])) ack_input morning).1.store.events
        ≡ save_event out.ack_event morning.store.events)
    × (out.ack_event.alert_id ≡ "a-1")
    × IsIndexed (SyncAck.execute (Stored.in_memory (pager ∷ [])) ack_input morning).1.store.alerts
    × ((SyncAck.execute (Stored.in_memory (pager ∷ [])) ack_input morning).1.store.silences
        ≡ morning.store.silences)
unfolding lookup
execute-stored_example =
    execute-stored (pager ∷ []) ack_input disk_full morning one_alert-IsIndexed refl

abbrev before_sync : SyncAckOutput
before_sync = record { alert = disk_full; ack_event = ack; synced_to = []; sync_errors = [] }

sync_to_external_systems-calls_example :
    (out' : SyncAckOutput) × ((sync_to_external_systems
        (pager ∷ [])
        disk_full
        ack
        slack
        before_sync
        morning).0
      ≡ ok out')
    × Synced disk_full ack slack morning.heap
        (pager ∷ [])
        []
        (sync_to_external_systems (pager ∷ []) disk_full ack slack before_sync morning).1.sent
        before_sync
        out'
    × ((sync_to_external_systems (pager ∷ []) disk_full ack slack before_sync morning).1.store
        ≡ morning.store)
sync_to_external_systems-calls_example =
    sync_to_external_systems-calls (pager ∷ []) disk_full ack slack before_sync morning

distinct_names : AreDistinct use_case.notifiers
distinct_names = ((λ e. ground (arith, eq_iff "slack" "pagerduty"), tt), (tt, tt))

written-IsSilent : IsSilent memory_alert_store
written-IsSilent a w = elim (Result-cases (AlertRepository.update w.heap a w.store.alerts)) [
  | inl (r, e) ↦ rw e refl
  | inr (x, e) ↦ rw e refl
]

send_notifications-Answered_example :
    (out' : ProcessAlertOutput) × ((send_notifications use_case disk_full empty_output morning).0
      ≡ ok out')
    × Answered disk_full use_case.notifiers []
        (send_notifications use_case disk_full empty_output morning).1.sent
        empty_output
        out'
unfolding matched_subscribers
send_notifications-Answered_example =
    send_notifications-Answered use_case disk_full empty_output morning refl distinct_names
      written-IsSilent

abbrev breaker : CircuitBreaker
breaker = record {
  name = "slack";
  max_failures = 5;
  timeout = 30;
  half_open_succ = 2;
  state = closed;
  failures = 0;
  last_fail_time = 0;
  success_count = 0;
}

abbrev tripped : CircuitBreaker
tripped = record breaker { state = open_state; failures = 5; last_fail_time = 90 }

abbrev slow : Error
slow = domain_error transient "slow"

-- Slow once, then up again.
abbrev recovering : ℕ → Attempt
recovering n = record {
  started = 100 + n;
  finished = 100 + n;
  reply = (if ltb n 2 then err slow else ok "msg-1");
  cancelled = none;
}

abbrev rejected : ℕ → Attempt
rejected n = record {
  started = 100 + n;
  finished = 100 + n;
  reply = err (other "no such channel");
  cancelled = none;
}

abbrev always_slow : ℕ → Attempt
always_slow n = record { started = 100 + n; finished = 100 + n; reply = err slow; cancelled = none }

notify_lem_example :
    ((notify 3 recovering breaker).calls ≤ 3)
    × ((message : String)
        → 0 < 3
        → (notify 3 recovering breaker).reply ≡ ok message
        → (i : ℕ) × ((notify 3 recovering breaker).calls ≡ suc i)
          × AllRetried i 1 recovering
          × ((recovering (1 + i)).reply ≡ ok message))
notify_lem_example = notify_lem 3 recovering breaker

is_closed : breaker.state ≢ open_state
is_closed e = ground arith
