-- ===== src/UseCase/SyncAck/Stored.antt =====
-- Execute of sync_ack.go over the in-memory repositories.
use alert_bridge.Base.{
  ℕ, suc, String, ◌≡◌, refl, sym, ap, ◌∙◌, ◌⊎◌, inl, inr, some, List, [], arith, ==-refl, is_set,
  Bool-cases, Option-cases,
}
use alert_bridge.Base.Assoc.{Map, lookup, insert, lookup-insert}
use alert_bridge.Errors.{ok}
use alert_bridge.Entity.Alert.{Alert, AlertState, active, acknowledged, resolved, acknowledge}
use alert_bridge.Entity.AckEvent.{AckEvent, new_ack_event, with_note, with_duration}
use alert_bridge.Memory.AlertRepository
use alert_bridge.Memory.AlertRepository.Fingerprints.{IsIndexed}
use alert_bridge.Memory.AlertRepository.Fingerprints.Update.{update-IsIndexed}
use alert_bridge.Memory.AckEventRepository.{save_event}
use alert_bridge.UseCase.MemoryStores.{Stores, memory_alert_store, memory_ack_event_store}
use alert_bridge.UseCase.SyncAck.{
  AckSyncer, SyncAckInput, SyncAckOutput, SyncAckUseCase, tolerate, make_event, save_ack,
  sync_found, execute, noted, lasting,
}
use alert_bridge.UseCase.SyncAck.Calls.{sync_to_external_systems-calls}
use alert_bridge.UseCase.World.{World, Exec}

-- noOpTransactionManager.WithTransaction
abbrev pub no_op_transaction : Exec Stores Alert → Exec Stores Alert
no_op_transaction run = run

abbrev pub in_memory : List AckSyncer → SyncAckUseCase Stores
in_memory syncers = record {
  alert_repo = memory_alert_store;
  ack_event_repo = memory_ack_event_store;
  with_transaction = no_op_transaction;
  syncers = syncers;
}

AlertState-cases : (s : AlertState) → (s ≡ active) ⊎ ((s ≡ acknowledged) ⊎ (s ≡ resolved))
AlertState-cases active = inl refl
AlertState-cases acknowledged = inr (inl refl)
AlertState-cases resolved = inr (inr refl)

acknowledge-tolerated :
    (by : String) (at : ℕ) (a : Alert) (w : World Stores)
    → tolerate (acknowledge by at a).1 w ≡ (ok tt, w)
unfolding tolerate acknowledge
acknowledge-tolerated by at a w = elim (AlertState-cases a.state) [
  | inl e ↦ rw (e) refl
  | inr (inl e) ↦ rw (e) refl
  | inr (inr e) ↦ rw (e) refl
]

acknowledge-keys :
    (by : String) (at : ℕ) (a : Alert)
    → ((acknowledge by at a).0.id ≡ a.id) × ((acknowledge by at a).0.fingerprint ≡ a.fingerprint)
unfolding acknowledge
acknowledge-keys by at a = elim (AlertState-cases a.state) [
  | inl e ↦ rw (e) (refl, refl)
  | inr (inl e) ↦ rw (e) (refl, refl)
  | inr (inr e) ↦ rw (e) (refl, refl)
]

-- The world after the function that the transaction runs, for an alert that is stored.
save_ack-stored :
    (ss : List AckSyncer) (input : SyncAckInput) (a : Alert) (event : AckEvent) (w : World Stores)
    → IsIndexed w.store.alerts
    → lookup a.id w.store.alerts.alerts ≡ some a
    → (s : AlertRepository.AlertRepository) × (save_ack (in_memory ss) input a event w ≡ (
      ok (acknowledge input.user_email (w.supply.clock w.ticks) a).0,
      record w {
        ticks = suc w.ticks;
        store = record w.store { alerts = s; events = save_event event w.store.events };
      },
    ))
      × (s.alerts
          ≡ insert a.id
              (acknowledge input.user_email (w.supply.clock w.ticks) a).0
              w.store.alerts.alerts)
      × IsIndexed s
unfolding save_ack
save_ack-stored ss input a event w v l =
    let at = w.supply.clock w.ticks in
    let a' = (acknowledge input.user_email at a).0 in
    let (i, f) = acknowledge-keys input.user_email at a in
    let w1 = record w {
      ticks = suc w.ticks;
      store = record w.store { events = save_event event w.store.events };
    } in
    let known = ap (λ k. lookup k w.store.alerts.alerts) i ∙ l in
    elim (update-IsIndexed w.heap a' w.store.alerts v (λ b m. ground (arith, sym known ∙ m, f))) [
      | inl (s, e, q, v') ↦ (
        s,
        rw (acknowledge-tolerated input.user_email at a w1, e) refl,
        q ∙ ap (λ k. insert k a' w.store.alerts.alerts) i,
        v',
      )
      | inr (m, e) ↦ ground (arith, sym m ∙ known)
    ]

lookup-inserted :
    (k id : String) (a : Alert) (m : Map Alert) → id ≡ k → lookup k (insert id a m) ≡ some a
lookup-inserted k id a m e =
    ap (λ j. lookup j (insert id a m)) (sym e) ∙ ground (arith, lookup-insert id id a m, ==-refl id)

abbrev event_of : SyncAckInput → String → ℕ → AckEvent
event_of input id at = lasting input.duration (
    noted input.note (
      new_ack_event id at input.alert_id input.source input.user_id input.user_email
        input.user_name))

event_of-alert_id :
    (input : SyncAckInput) (id : String) (at : ℕ) → (event_of input id at).alert_id ≡ input.alert_id
unfolding new_ack_event with_note with_duration
event_of-alert_id input id at = elim (Option-cases input.duration) [
  | inl n ↦ elim (Bool-cases (is_set input.note)) [
    | inl c ↦ rw (n, c) refl
    | inr c ↦ rw (n, c) refl
  ]
  | inr (d, e) ↦ elim (Bool-cases (is_set input.note)) [
    | inl c ↦ rw (e, c) refl
    | inr c ↦ rw (e, c) refl
  ]
]

-- Over the in-memory repositories, with the index by fingerprint in order and an alert stored under
-- the id of the input: Execute succeeds whatever the syncers answer, stores the alert with the
-- outcome of its acknowledgement, in any state of the alert, saves the event, which is about that
-- alert, keeps the index in order, and leaves the silences as they are.
pub execute-stored :
    (ss : List AckSyncer) (input : SyncAckInput) (a : Alert) (w : World Stores)
    → IsIndexed w.store.alerts
    → lookup input.alert_id w.store.alerts.alerts ≡ some a
    → (out : SyncAckOutput) × ((execute (in_memory ss) input w).0 ≡ ok out)
      × (out.alert ≡ (acknowledge input.user_email (w.supply.clock (suc w.ticks)) a).0)
      × (AlertRepository.find_by_id input.alert_id (execute (in_memory ss) input w).1.store.alerts
          ≡ some out.alert)
      × ((execute (in_memory ss) input w).1.store.events ≡ save_event out.ack_event w.store.events)
      × (out.ack_event.alert_id ≡ input.alert_id)
      × IsIndexed (execute (in_memory ss) input w).1.store.alerts
      × ((execute (in_memory ss) input w).1.store.silences ≡ w.store.silences)
unfolding execute AlertRepository.find_by_id sync_found make_event
execute-stored ss input a w v l =
    let own = v.own_id input.alert_id a l in
    let here = ap (λ k. lookup k w.store.alerts.alerts) own ∙ l in
    let at = w.supply.clock (suc w.ticks) in
    let a' = (acknowledge input.user_email at a).0 in
    let event = event_of input (w.supply.uuid w.drawn) (w.supply.clock w.ticks) in
    let w1 = record w { drawn = suc w.drawn; ticks = suc w.ticks } in
    let (s, run, ins, v') = save_ack-stored ss input a event w1 v here in
    let w2 = record w1 {
      ticks = suc (suc w.ticks);
      store = record w.store { alerts = s; events = save_event event w.store.events };
    } in
    let out0 : SyncAckOutput = record {
      alert = a';
      ack_event = event;
      synced_to = [];
      sync_errors = [];
    } in
    let (out, p, r, k) = sync_to_external_systems-calls ss a' event input.source out0 w2 in
    rw (l, run)
      (
        out,
        p,
        r.same_alert,
        ap (λ (t : Stores). lookup input.alert_id t.alerts.alerts) k
            ∙ ap (lookup input.alert_id) ins
            ∙ lookup-inserted input.alert_id a.id a' w.store.alerts.alerts own
            ∙ ap some (sym r.same_alert),
        ap (λ (t : Stores). t.events) k ∙ ap (λ e. save_event e w.store.events) (sym r.same_event),
        ap (λ (e : AckEvent). e.alert_id) r.same_event
            ∙ event_of-alert_id input (w.supply.uuid w.drawn) (w.supply.clock w.ticks),
        rw (k) v',
        ap (λ (t : Stores). t.silences) k,
      )
