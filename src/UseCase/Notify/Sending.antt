-- ===== src/UseCase/Notify/Sending.antt =====
-- A call to one notifier leaves the store as it was (internal/usecase/alert/process_alert.go).
use alert_bridge.Base.{
  String, ◌≡◌, refl, ◌∙◌, ◌⊎◌, inl, inr, Option, none, some, List, [], ◌∷◌, ◌==◌, is_set,
  Bool-cases,
}
use alert_bridge.Base.Assoc.{Map}
use alert_bridge.Errors.{Error, Result, ok, err}
use alert_bridge.Entity.Alert.{Alert}
use alert_bridge.Service.SubscriberMatcher.{UseCaseMatchedSubscriber}
use alert_bridge.UseCase.World.{World, Effect, PagerDutySubscriberNotification}
use alert_bridge.UseCase.Notify.{
  Notifier, ProcessAlertUseCase, notify_by_name, mention, escalate, send_slack_notification,
  send_pagerduty_notification, send_one,
}

module _ {S : Type 0} where
  notify_by_name-store :
      (name : String) (ns : List Notifier) (a : Alert) (w : World S)
      → (notify_by_name name ns a w).1.store ≡ w.store
  unfolding notify_by_name
  notify_by_name-store name [] a w = refl
  notify_by_name-store name (n ∷ ns) a w = elim (Bool-cases (n.name == name)) [
    | inl c ↦ rw (c, notify_by_name) refl
    | inr c ↦ rw (c, notify_by_name) (notify_by_name-store name ns a w)
  ]

  mention-store :
      (ask : Option (List Effect → Alert → List String → Result String)) (ids : List String)
      (ns : List Notifier) (a : Alert) (w : World S)
      → (mention ask ids ns a w).1.store ≡ w.store
  unfolding mention
  mention-store (some ask) (id ∷ ids) ns a w = refl
  mention-store (some ask) [] ns a w = notify_by_name-store "slack" ns a w
  mention-store none ids ns a w = notify_by_name-store "slack" ns a w

  escalate-store :
      (ask : Option (List Effect → Alert → List PagerDutySubscriberNotification → Map String))
      (subs : List UseCaseMatchedSubscriber) (a : Alert) (w : World S)
      → ((key : String) × ((escalate ask subs a w).0 ≡ ok key))
        × ((escalate ask subs a w).1.store ≡ w.store)
  unfolding escalate
  escalate-store (some ask) (s ∷ ss) a w = ((_, refl), refl)
  escalate-store (some ask) [] a w = ((_, refl), refl)
  escalate-store none subs a w = ((_, refl), refl)

  send_pagerduty_notification-store :
      (uc : ProcessAlertUseCase S) (subs : List UseCaseMatchedSubscriber) (a : Alert) (w : World S)
      → (send_pagerduty_notification uc a subs w).1.store ≡ w.store
  unfolding send_pagerduty_notification
  send_pagerduty_notification-store uc subs a w =
      let ((key, e), q) = escalate-store uc.pagerduty_notifier subs a w in
      elim (Bool-cases (is_set key)) [
        | inl c ↦ rw (e, c) q
        | inr c ↦ rw (e, c) (notify_by_name-store "pagerduty" uc.notifiers a _ ∙ q)
      ]

  -- A call to one notifier, whichever it is, leaves the store as it was.
  pub send_one-store :
      (uc : ProcessAlertUseCase S) (subs : List UseCaseMatchedSubscriber) (a : Alert) (n : Notifier)
      (w : World S)
      → (send_one uc subs a n w).1.store ≡ w.store
  unfolding send_one send_slack_notification
  send_one-store uc subs a n w = elim (Bool-cases (n.name == "slack")) [
    | inl c ↦ rw (c) (mention-store uc.slack_notifier _ uc.notifiers a w)
    | inr c ↦ elim (Bool-cases (n.name == "pagerduty")) [
      | inl d ↦ rw (c, d) (send_pagerduty_notification-store uc subs a w)
      | inr d ↦ rw (c, d) refl
    ]
  ]

pub Result-cases :
    {A : Type 0} (r : Result A) → ((a : A) × (r ≡ ok a)) ⊎ ((e : Error) × (r ≡ err e))
Result-cases (ok a) = inl (a, refl)
Result-cases (err e) = inr (e, refl)
