-- ===== src/UseCase/Notify/Answers.antt =====
-- What the notifiers are asked and what is reported of their answers, where no subscriber of the alert
-- is matched.
use mathlib.Core.Path.{subst}
use mathlib.Core.List.{append-nil, append_assoc}
use alert_bridge.Base.{
  ℕ, String, ◌≡◌, ◌≢◌, refl, sym, ap, ◌∙◌, inl, inr, none, List, [], ◌∷◌, ◌++◌, ◌==◌, ==-refl,
  ==-false, ==_sound, Bool-cases, Option-cases,
}
use alert_bridge.Base.Heap.{Heap}
use alert_bridge.Errors.{Error, Result, ok, err}
use alert_bridge.Entity.Alert.{Alert, set_external_reference}
use alert_bridge.Service.SubscriberMatcher.{get_slack_user_ids_from_use_case}
use alert_bridge.UseCase.AlertInput.{ProcessAlertOutput}
use alert_bridge.UseCase.World.{World, Effect, AlertStore, notified}
use alert_bridge.UseCase.Notify.{
  Notifier, ProcessAlertUseCase, notify_by_name, mention, escalate, matched_subscribers,
  send_slack_notification, send_pagerduty_notification, send_one, store_message_id, send_all,
  send_notifications, failed_with, sent_by,
}
use alert_bridge.UseCase.Notify.Sending.{Result-cases}

-- The alert without its references and without the time of its last change.
abbrev content : Alert → Alert
content a = record a { external_references = none; updated_at = 0 }

-- The notifiers are asked one after the other, each once, to notify of the alert, of which only the
-- references and the time of the last change may differ: `sent` are the calls before and `sent'` those
-- after them. `taken` are the names of those that accept, and `failed` the others with their errors.
pub data Told (a : Alert)
    : List Notifier → List Effect → List Effect → List String → List (String × Error) → Type 0 where
  nobody : {sent : List Effect} → Told a [] sent sent [] []
  accepted :
      {n : Notifier} {ns : List Notifier} {sent sent' : List Effect} {taken : List String}
      {failed : List (String × Error)}
      → (a' : Alert) (id : String) → content a' ≡ content a
      → n.notify sent a' ≡ ok id
      → Told a ns (notified n.name a' ∷ sent) sent' taken failed
      → Told a (n ∷ ns) sent sent' (n.name ∷ taken) failed
  refused :
      {n : Notifier} {ns : List Notifier} {sent sent' : List Effect} {taken : List String}
      {failed : List (String × Error)}
      → (a' : Alert) (e : Error) → content a' ≡ content a
      → n.notify sent a' ≡ err e
      → Told a ns (notified n.name a' ∷ sent) sent' taken failed
      → Told a (n ∷ ns) sent sent' taken ((n.name, e) ∷ failed)

-- `out'` adds to `out` what is reported of the notifiers, and changes nothing else.
pub record Answered (a : Alert) (ns : List Notifier) (sent sent' : List Effect)
    (out out' : ProcessAlertOutput) : Type 0 where
  pub taken : List String
  pub failed : List (String × Error)
  pub told : Told a ns sent sent' taken failed
  pub sent_after : out'.notifications_sent ≡ out.notifications_sent ++ taken
  pub failed_after : out'.notifications_failed ≡ out.notifications_failed ++ failed
  pub same_id : out'.alert_id ≡ out.alert_id
  pub same_new : out'.is_new ≡ out.is_new
  pub same_silenced : out'.is_silenced ≡ out.is_silenced

abbrev AllOther : String → List Notifier → Type 0
AllOther name [] = Unit
AllOther name (n ∷ ns) = (n.name ≢ name) × AllOther name ns

-- No two notifiers have the same name.
abbrev pub AreDistinct : List Notifier → Type 0
AreDistinct [] = Unit
AreDistinct (n ∷ ns) = AllOther n.name ns × AreDistinct ns

content-set_external_reference :
    (system reference : String) (at : ℕ) (a : Alert) (h : Heap)
    → content (set_external_reference system reference at a h).0 ≡ content a
unfolding set_external_reference
content-set_external_reference system reference at a h = elim (Option-cases a.external_references) [
  | inl e ↦ rw e refl
  | inr (p, e) ↦ rw e refl
]

module _ (a0 a : Alert) (n : Notifier) (ns : List Notifier) {sent sent' : List Effect}
    (out : ProcessAlertOutput) {out' : ProcessAlertOutput} where
  Answered-refused :
      (x : Error)
      → content a ≡ content a0
      → n.notify sent a ≡ err x
      → Answered a0 ns (notified n.name a ∷ sent) sent' (failed_with out n.name x) out'
      → Answered a0 (n ∷ ns) sent sent' out out'
  Answered-refused x same e r = record {
    taken = r.taken;
    failed = (n.name, x) ∷ r.failed;
    told = refused a x same e r.told;
    sent_after = r.sent_after;
    failed_after =
        r.failed_after ∙ append_assoc out.notifications_failed ((n.name, x) ∷ []) r.failed;
    same_id = r.same_id;
    same_new = r.same_new;
    same_silenced = r.same_silenced;
  }

  Answered-accepted :
      (id : String)
      → content a ≡ content a0
      → n.notify sent a ≡ ok id
      → Answered a0 ns (notified n.name a ∷ sent) sent' (sent_by out n.name) out'
      → Answered a0 (n ∷ ns) sent sent' out out'
  Answered-accepted id same e r = record {
    taken = n.name ∷ r.taken;
    failed = r.failed;
    told = accepted a id same e r.told;
    sent_after = r.sent_after ∙ append_assoc out.notifications_sent (n.name ∷ []) r.taken;
    failed_after = r.failed_after;
    same_id = r.same_id;
    same_new = r.same_new;
    same_silenced = r.same_silenced;
  }

module _ {S : Type 0} where
  -- The answer of a notifier, and the world with the call to it.
  abbrev told_one : Notifier → Alert → World S → Result String × World S
  told_one n a w = (n.notify w.sent a, record w { sent = notified n.name a ∷ w.sent })

module _ (S : Type 0) where
  -- By its name, each notifier of the second list is the one that is found in the first.
  abbrev AreFound : List Notifier → List Notifier → Type 0
  AreFound all [] = Unit
  AreFound all (n ∷ ns) =
      ((a : Alert) (w : World S) → notify_by_name n.name all a w ≡ told_one n a w) × AreFound all ns

  found_behind :
      (n : Notifier) (all ns : List Notifier)
      → AllOther n.name ns
      → AreFound all ns
      → AreFound (n ∷ all) ns
  unfolding notify_by_name
  found_behind n all [] o f = tt
  found_behind n all (m ∷ ns) o f = (
    λ a w. rw (==-false n.name m.name (λ e. o.0 (sym e)), notify_by_name) (f.0 a w),
    found_behind n all ns o.1 f.1,
  )

  all_found : (ns : List Notifier) → AreDistinct ns → AreFound ns ns
  unfolding notify_by_name
  all_found [] d = tt
  all_found (n ∷ ns) d =
      (λ a w. rw (==-refl n.name, notify_by_name) refl, found_behind n ns ns d.0 (all_found ns d.1))

module _ {S : Type 0} where
  module _ (uc : ProcessAlertUseCase S) (a : Alert) (w : World S) where
    mention-nobody :
        mention uc.slack_notifier [] uc.notifiers a w ≡ notify_by_name "slack" uc.notifiers a w
    unfolding mention
    mention-nobody = elim (Option-cases uc.slack_notifier) [
      | inl e ↦ rw e refl
      | inr (ask, e) ↦ rw e refl
    ]

    pagerduty-nobody :
        send_pagerduty_notification uc a [] w ≡ notify_by_name "pagerduty" uc.notifiers a w
    unfolding send_pagerduty_notification escalate
    pagerduty-nobody = elim (Option-cases uc.pagerduty_notifier) [
      | inl e ↦ rw e refl
      | inr (ask, e) ↦ rw e refl
    ]

    send_one-told :
        (n : Notifier)
        → ((a : Alert) (w : World S) → notify_by_name n.name uc.notifiers a w ≡ told_one n a w)
        → send_one uc [] a n w ≡ told_one n a w
    unfolding send_one send_slack_notification get_slack_user_ids_from_use_case
    send_one-told n found = elim (Bool-cases (n.name == "slack")) [
      | inl e ↦ rw e (
          mention-nobody
          ∙ ap (λ k. notify_by_name k uc.notifiers a w) (sym (==_sound n.name "slack" e))
          ∙ found a w)
      | inr e ↦ elim (Bool-cases (n.name == "pagerduty")) [
        | inl f ↦
            rw (e, f)
              (pagerduty-nobody
                ∙ ap (λ k. notify_by_name k uc.notifiers a w) (sym (==_sound n.name "pagerduty" f))
                ∙ found a w)
        | inr f ↦ rw (e, f) refl
      ]
    ]

  -- An error or not, the update of a stored alert makes no call.
  abbrev pub IsSilent : AlertStore S → Type 0
  IsSilent repo = (x : Alert) (w : World S) → (repo.update x w).1.sent ≡ w.sent

  store_message_id-sent :
      (repo : AlertStore S) (a : Alert) (name id : String) (w : World S)
      → IsSilent repo
      → (store_message_id repo a name id w).1.sent ≡ w.sent
  unfolding store_message_id
  store_message_id-sent repo a name id w silent = silent _ _

  send_all-Answered :
      (uc : ProcessAlertUseCase S) (a0 a : Alert) (ns : List Notifier) (out : ProcessAlertOutput)
      (w : World S)
      → IsSilent uc.alert_repo
      → content a ≡ content a0
      → AreFound S uc.notifiers ns
      → (out' : ProcessAlertOutput) × ((send_all uc [] ns a out w).0 ≡ ok out')
        × Answered a0 ns w.sent (send_all uc [] ns a out w).1.sent out out'
  unfolding send_all store_message_id
  send_all-Answered uc a0 a [] out w silent same found = (
    out,
    refl,
    record {
      taken = [];
      failed = [];
      told = nobody;
      sent_after = sym (append-nil out.notifications_sent);
      failed_after = sym (append-nil out.notifications_failed);
      same_id = refl;
      same_new = refl;
      same_silenced = refl;
    },
  )
  send_all-Answered uc a0 a (n ∷ ns) out w silent same found =
      elim (Result-cases (n.notify w.sent a)) [
        | inl (id, e) ↦
            (let w1 : World S = record w { sent = notified n.name a ∷ w.sent } in
              let a' = (set_external_reference n.name id (w1.supply.clock w1.ticks) a w1.heap).0 in
              let w2 = (store_message_id uc.alert_repo a n.name id w1).1 in
              let (out', p, r) =
                send_all-Answered uc a0 a' ns (sent_by out n.name) w2 silent
                  (content-set_external_reference n.name id _ a w1.heap ∙ same) found.1 in
              rw (send_one-told uc a w n found.0, e)
                (
                  out',
                  p,
                  Answered-accepted a0 a n ns out id same e (
                      subst
                        (λ calls.
                          Answered a0 ns calls (send_all uc [] ns a' (sent_by out n.name) w2).1.sent
                            (sent_by out n.name) out')
                        (store_message_id-sent uc.alert_repo a n.name id w1 silent) r),
                ))
        | inr (x, e) ↦
            (let w1 : World S = record w { sent = notified n.name a ∷ w.sent } in
              let (out', p, r) =
                send_all-Answered uc a0 a ns (failed_with out n.name x) w1 silent same found.1 in
              rw (send_one-told uc a w n found.0, e)
                (out', p, Answered-refused a0 a n ns out x same e r))
      ]

  -- No subscriber of the alert is matched, no two notifiers have the same name, and the update of a
  -- stored alert makes no call. Then the sending of the notifications never fails. It asks every
  -- notifier once and in order to notify of this alert, of which only the references and the time of
  -- the last change may differ, and makes no other call. The names of those that accept are reported as
  -- sent, those of the others as failed with their errors, and the rest of the output is kept.
  pub send_notifications-Answered :
      (uc : ProcessAlertUseCase S) (a : Alert) (out : ProcessAlertOutput) (w : World S)
      → matched_subscribers uc.subscriber_matcher a ≡ []
      → AreDistinct uc.notifiers
      → IsSilent uc.alert_repo
      → (out' : ProcessAlertOutput) × ((send_notifications uc a out w).0 ≡ ok out')
        × Answered a uc.notifiers w.sent (send_notifications uc a out w).1.sent out out'
  unfolding send_notifications
  send_notifications-Answered uc a out w none_matched distinct silent =
      rw none_matched (
        send_all-Answered uc a a uc.notifiers out w silent refl (all_found S uc.notifiers distinct))
