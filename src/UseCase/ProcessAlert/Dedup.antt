-- ===== src/UseCase/ProcessAlert/Dedup.antt =====
-- One firing alert for each fingerprint, kept by Execute over the in-memory repositories.
use alert_bridge.Base.{
  ℕ, String, ◌≡◌, refl, sym, ap, ◌∙◌, ◌⊎◌, inl, inr, true, false, Option, none, some, List, [], ◌∷◌,
  arith, ◌==◌, ◌≢◌, is_set, Bool-cases, Option-cases, In,
}
use alert_bridge.Base.Assoc.{Map, lookup}
use alert_bridge.Errors.{Error, Result, ok, err}
use alert_bridge.Entity.Alert.{
  Alert, is_firing, resolve, set_external_reference, get_external_reference,
}
use alert_bridge.Entity.SilenceMark.{SilenceMark}
use alert_bridge.Memory.AlertRepository
use alert_bridge.Memory.AlertRepository.Fingerprints.Search.{find_by_fingerprint_iff}
use alert_bridge.Memory.AlertRepository.Firing.{
  IsDeduplicated, Agrees, save-IsDeduplicated, update-IsDeduplicated,
}
use alert_bridge.Service.SubscriberMatcher.{UseCaseMatchedSubscriber}
use alert_bridge.UseCase.AlertInput.{ProcessAlertInput, ProcessAlertOutput, empty_output}
use alert_bridge.UseCase.MemoryStores.{
  Stores, written, with_alerts, memory_alert_store, memory_silence_store,
}
use alert_bridge.UseCase.Notify.{
  Notifier, ProcessAlertUseCase, send_one, store_message_id, send_all, matched_subscribers,
  send_notifications, failed_with, sent_by, update_all,
}
use alert_bridge.UseCase.Notify.Sending.{Result-cases, send_one-store}
use alert_bridge.UseCase.ProcessAlert.{
  find_firing_alert, add_labels, add_annotations, build_alert, resolve_firing, save_and_notify,
  fire_unless_firing, execute,
}
use alert_bridge.UseCase.World.{World}

-- The use case with the in-memory repositories.
abbrev pub in_memory : ProcessAlertUseCase Stores → ProcessAlertUseCase Stores
in_memory uc = record uc { alert_repo = memory_alert_store; silence_repo = memory_silence_store }

abbrev pub Holds : Alert → World Stores → Type 0
Holds a w = IsDeduplicated w.store.alerts × Agrees a w.store.alerts

set_external_reference-Agrees :
    (system reference : String) (at : ℕ) (a : Alert) (w : World Stores)
    → Agrees a w.store.alerts
    → Agrees (set_external_reference system reference at a w.heap).0 w.store.alerts
unfolding set_external_reference is_firing
set_external_reference-Agrees system reference at a w g =
    elim (Option-cases a.external_references) [ inl n ↦ rw (n) g | inr (p, e) ↦ rw (e) g ]

written-Holds :
    (a : Alert) (w : World Stores) (r : Result AlertRepository.AlertRepository)
    → Holds a w
    → ((s : AlertRepository.AlertRepository) × (r ≡ ok s) × IsDeduplicated s × Agrees a s)
      ⊎ ((e : Error) × (r ≡ err e))
    → Holds a (written w r).1
written-Holds a w r h (inl (s, e, d, g)) = rw (e) (d, g)
written-Holds a w r h (inr (x, e)) = rw (e) h

store_message_id-Holds :
    (a : Alert) (name id : String) (w : World Stores)
    → Holds a w
    → Holds
        (set_external_reference name id (w.supply.clock w.ticks) a w.heap).0
        (store_message_id memory_alert_store a name id w).1
unfolding store_message_id
store_message_id-Holds a name id w h =
    let (a', h') = set_external_reference name id (w.supply.clock w.ticks) a w.heap in
    let g = set_external_reference-Agrees name id (w.supply.clock w.ticks) a w h.1 in
    written-Holds a' (record w { heap = h'; ticks = ℕ.suc w.ticks })
      (AlertRepository.update h' a' w.store.alerts) (h.0, g)
      (update-IsDeduplicated h' a' w.store.alerts h.0 g)

send_all-dedup :
    (uc : ProcessAlertUseCase Stores) (subs : List UseCaseMatchedSubscriber) (ns : List Notifier)
    (a : Alert) (out : ProcessAlertOutput) (w : World Stores)
    → Holds a w
    → IsDeduplicated (send_all (in_memory uc) subs ns a out w).1.store.alerts
unfolding send_all
send_all-dedup uc subs [] a out w h = h.0
send_all-dedup uc subs (n ∷ ns) a out w h =
    let m = send_one (in_memory uc) subs a n in
    let w1 = (m w).1 in
    let h1 : Holds a w1 = rw (send_one-store (in_memory uc) subs a n w) h in
    elim (Result-cases (m w).0) [
      | inl (id, e) ↦
          let a' = (set_external_reference n.name id (w1.supply.clock w1.ticks) a w1.heap).0 in
          let w2 = (store_message_id memory_alert_store a n.name id w1).1 in
          rw (e) (
            send_all-dedup uc subs ns a' (sent_by out n.name) w2
              (store_message_id-Holds a n.name id w1 h1))
      | inr (x, e) ↦ rw (e) (send_all-dedup uc subs ns a (failed_with out n.name x) w1 h1)
    ]

update_all-store :
    (ns : List Notifier) (a : Alert) (out : ProcessAlertOutput) (w : World Stores)
    → (update_all ns a out w).1.store ≡ w.store
unfolding update_all
update_all-store [] a out w = refl
update_all-store (n ∷ ns) a out w =
    let id = get_external_reference n.name w.heap a in
    elim (Bool-cases (is_set id)) [
      | inl c ↦ elim (Result-cases (n.update_message w.sent id a)) [
        | inl (u, e) ↦ rw (c, e) (update_all-store ns a (sent_by out n.name) _)
        | inr (x, e) ↦ rw (c, e) (update_all-store ns a (failed_with out n.name x) _)
      ]
      | inr c ↦ rw (c) (update_all-store ns a out w)
    ]

pub find_firing_alert-none :
    (alerts : List Alert) (b : Alert)
    → find_firing_alert alerts ≡ none
    → In b alerts
    → is_firing b ≡ false
unfolding find_firing_alert
find_firing_alert-none [] b e i = ground arith
find_firing_alert-none (a ∷ alerts) b e i = ground (arith, find_firing_alert-none alerts b)

pub find_firing_alert-some :
    (alerts : List Alert) (a : Alert)
    → find_firing_alert alerts ≡ some a
    → In a alerts × (is_firing a ≡ true)
unfolding find_firing_alert
find_firing_alert-some [] a e = ground arith
find_firing_alert-some (b ∷ alerts) a e = ground (arith, find_firing_alert-some alerts a)

add_labels-fingerprint : (m : Map String) (a : Alert) → (add_labels m a).fingerprint ≡ a.fingerprint
unfolding add_labels
add_labels-fingerprint [] a = refl
add_labels-fingerprint ((k, v) ∷ m) a = add_labels-fingerprint m _

add_annotations-fingerprint :
    (m : Map String) (a : Alert) → (add_annotations m a).fingerprint ≡ a.fingerprint
unfolding add_annotations
add_annotations-fingerprint [] a = refl
add_annotations-fingerprint ((k, v) ∷ m) a = add_annotations-fingerprint m _

pub built-fingerprint :
    (input : ProcessAlertInput) (a : Alert)
    → (add_annotations input.annotations (add_labels input.labels a)).fingerprint ≡ a.fingerprint
built-fingerprint input a =
    add_annotations-fingerprint input.annotations _ ∙ add_labels-fingerprint input.labels a

resolve-Agrees :
    (at : ℕ) (a : Alert) (r : AlertRepository.AlertRepository)
    → lookup a.id r.alerts ≡ some a
    → Agrees (resolve at a) r
unfolding resolve is_firing
resolve-Agrees at a r l b m = (ground (arith, sym l ∙ m), λ fires. ground arith)

resolve_firing-dedup :
    (uc : ProcessAlertUseCase Stores) (a : Alert) (w : World Stores)
    → IsDeduplicated w.store.alerts
    → lookup a.id w.store.alerts.alerts ≡ some a
    → IsDeduplicated (resolve_firing (in_memory uc) (some a) w).1.store.alerts
unfolding resolve_firing
resolve_firing-dedup uc a w d l =
    let at = w.supply.clock w.ticks in
    let out = record empty_output { alert_id = a.id } in
    let w1 = record w { ticks = ℕ.suc w.ticks } in
    elim (update-IsDeduplicated w.heap (resolve at a) w.store.alerts d
      (resolve-Agrees at a w.store.alerts l)) [
        | inl (s, e, d', g) ↦
            rw (e, update_all-store uc.notifiers (resolve at a) out (with_alerts w1 s)) d'
        | inr (x, e) ↦ rw (e) d
      ]

save_and_notify-dedup :
    (uc : ProcessAlertUseCase Stores) (a : Alert) (silences : List SilenceMark) (w : World Stores)
    → IsDeduplicated w.store.alerts
    → ((k : String) (b : Alert)
        → lookup k w.store.alerts.alerts ≡ some b
        → is_firing b ≡ true
        → a.fingerprint ≢ b.fingerprint)
    → IsDeduplicated (save_and_notify (in_memory uc) a silences w).1.store.alerts
unfolding save_and_notify send_notifications
save_and_notify-dedup uc a [] w d quiet =
    let out = record empty_output { alert_id = a.id; is_new = true } in
    elim (save-IsDeduplicated w.heap a w.store.alerts d quiet) [
      | inl (s, e, d', g) ↦ rw (e) (
          send_all-dedup uc (matched_subscribers uc.subscriber_matcher a) uc.notifiers a out
            (with_alerts w s) (d', g))
      | inr (x, e) ↦ rw (e) d
    ]
save_and_notify-dedup uc a (m ∷ ms) w d quiet =
    elim (save-IsDeduplicated w.heap a w.store.alerts d quiet) [
      | inl (s, e, d', g) ↦ rw (e) d'
      | inr (x, e) ↦ rw (e) d
    ]

fire_unless_firing-dedup :
    (uc : ProcessAlertUseCase Stores) (input : ProcessAlertInput) (known : Option Alert)
    (w : World Stores)
    → IsDeduplicated w.store.alerts
    → (known ≡ none
        → (k : String) (b : Alert) → lookup k w.store.alerts.alerts ≡ some b
        → is_firing b ≡ true
        → input.fingerprint ≢ b.fingerprint)
    → IsDeduplicated (fire_unless_firing (in_memory uc) input known w).1.store.alerts
unfolding fire_unless_firing build_alert
fire_unless_firing-dedup uc input (some a) w d quiet = d
fire_unless_firing-dedup uc input none w d quiet =
    save_and_notify-dedup uc _ _ _ d
      (λ k b l fb e. quiet refl k b l fb (sym (built-fingerprint input _) ∙ e))

-- Execute over the in-memory repositories keeps at most one firing alert for each fingerprint,
-- whatever the notifiers answer and whichever of its steps fail.
pub execute-dedup :
    (uc : ProcessAlertUseCase Stores) (input : ProcessAlertInput) (w : World Stores)
    → IsDeduplicated w.store.alerts
    → IsDeduplicated (execute (in_memory uc) input w).1.store.alerts
unfolding execute
execute-dedup uc input w d =
    let found = AlertRepository.find_by_fingerprint input.fingerprint w.store.alerts in
    let iff = λ (a : Alert). find_by_fingerprint_iff input.fingerprint a w.store.alerts d.indexed in
    elim (Bool-cases (input.status == "resolved")) [
      | inl c ↦ elim (Option-cases (find_firing_alert found)) [
        | inl n ↦ rw (c, n, resolve_firing) d
        | inr (a, e) ↦
            let here = (find_firing_alert-some found a e).0 in
            rw (c, e) (resolve_firing-dedup uc a w d ((iff a).0 here).0)
      ]
      | inr c ↦ rw (c) (
          fire_unless_firing-dedup uc input (find_firing_alert found) w d (λ n k b l fb q.
            let own = ap (λ j. lookup j w.store.alerts.alerts) (d.indexed.own_id k b l) in
            let quiet = find_firing_alert-none found b n ((iff b).1 (own ∙ l, sym q)) in
            ground arith))
    ]
