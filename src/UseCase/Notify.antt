-- ===== src/UseCase/Notify.antt =====
-- The notification part of internal/usecase/alert/process_alert.go. What an external system answers
-- is a function of the calls made before; logging is left out. The results of the sequential
-- notification are a map, listed in the order in which it is ranged over, which is any.
pub mod Sending
pub mod Answers
use text.Mathlib.Text.{starts_with}
use alert_bridge.Base.{
  ℕ, String, Bool, not, ◌&&◌, Option, none, some, List, [], ◌∷◌, ◌++◌, ◌==◌, is_set, if◌then◌else◌,
  map,
}
use alert_bridge.Base.Assoc.{Map}
use alert_bridge.Errors.{Error, Result, ok, err, other}
use alert_bridge.Entity.Alert.{Alert, set_external_reference, get_external_reference}
use alert_bridge.Service.SubscriberMatcher.{
  UseCaseMatchedSubscriber, get_slack_user_ids_from_use_case,
}
use alert_bridge.UseCase.AlertInput.{ProcessAlertOutput}
use alert_bridge.UseCase.World.{
  Exec, Effect, PagerDutySubscriberNotification, AlertStore, SilenceStore, notified, mentioned,
  escalated, updated, pure, raise, attempt, now, ◌>>=◌, ◌>>◌,
}

pub record Notifier : Type 0 where
  pub name : String
  pub notify : List Effect → Alert → Result String
  pub update_message : List Effect → String → Alert → Result (Unit {0})

-- The use case's fields: `none` is a nil one.
pub record ProcessAlertUseCase (S : Type 0) : Type 0 where
  pub alert_repo : AlertStore S
  pub silence_repo : SilenceStore S
  pub notifiers : List Notifier
  pub subscriber_matcher : Option (Alert → List UseCaseMatchedSubscriber)
  pub slack_notifier : Option (List Effect → Alert → List String → Result String)
  pub pagerduty_notifier :
      Option (List Effect → Alert → List PagerDutySubscriberNotification → Map String)

-- len(result) > 6 && result[:6] == "error:"
unfoldable pub is_error_text : String → Bool
is_error_text s = starts_with s "error:" && not (s == "error:")

-- The first result that is neither an error nor empty; "" if there is none.
unfoldable pub first_dedup_key : Map String → String
unfolding is_error_text
first_dedup_key [] = ""
first_dedup_key ((name, result) ∷ m) =
    if not (is_error_text result) && is_set result then result else first_dedup_key m

unfoldable pub matched_subscribers :
    Option (Alert → List UseCaseMatchedSubscriber) → Alert → List UseCaseMatchedSubscriber
matched_subscribers none a = []
matched_subscribers (some match_alert) a = match_alert a

abbrev pub failed_with : ProcessAlertOutput → String → Error → ProcessAlertOutput
failed_with out name e = record out {
  notifications_failed = out.notifications_failed ++ (name, e) ∷ [];
}

abbrev pub sent_by : ProcessAlertOutput → String → ProcessAlertOutput
sent_by out name = record out { notifications_sent = out.notifications_sent ++ name ∷ [] }

abbrev to_notification : UseCaseMatchedSubscriber → PagerDutySubscriberNotification
to_notification s = record {
  subscriber_name = s.name;
  pagerduty_user_id = s.pagerduty_user_id;
  routing_key = s.pagerduty_routing_key;
  match_count = s.match_count;
}

module _ {S : Type 0} where
  -- A call to a notifier is recorded, and its answer depends on the calls before.
  abbrev call_notifier : Notifier → Alert → Exec S String
  call_notifier n a w = (n.notify w.sent a, record w { sent = notified n.name a ∷ w.sent })

  abbrev call_update : Notifier → String → Alert → Exec S (Unit {0})
  call_update n message_id a w = (
    n.update_message w.sent message_id a,
    record w { sent = updated n.name message_id a ∷ w.sent },
  )

  -- The first notifier of that name.
  notify_by_name : String → List Notifier → Alert → Exec S String
  notify_by_name name [] a = raise (other "notifier not found")
  notify_by_name name (n ∷ ns) a =
      if n.name == name then call_notifier n a else notify_by_name name ns a

  mention :
      Option (List Effect → Alert → List String → Result String)
      → List String
      → List Notifier
      → Alert
      → Exec S String
  unfolding notify_by_name
  mention (some ask) (id ∷ ids) ns a w =
      (ask w.sent a (id ∷ ids), record w { sent = mentioned a (id ∷ ids) ∷ w.sent })
  mention _ _ ns a w = notify_by_name "slack" ns a w

  unfoldable pub send_slack_notification :
      ProcessAlertUseCase S → Alert → List String → Exec S String
  unfolding mention
  send_slack_notification uc a ids = mention uc.slack_notifier ids uc.notifiers a

  -- `some key` if a subscriber was notified and gave one.
  escalate :
      Option (List Effect → Alert → List PagerDutySubscriberNotification → Map String)
      → List UseCaseMatchedSubscriber
      → Alert
      → Exec S String
  unfolding first_dedup_key
  escalate (some ask) (s ∷ ss) a w =
      let ns = map to_notification (s ∷ ss) in
      (ok (first_dedup_key (ask w.sent a ns)), record w { sent = escalated a ns ∷ w.sent })
  escalate _ _ a w = (ok "", w)

  unfoldable pub send_pagerduty_notification :
      ProcessAlertUseCase S → Alert → List UseCaseMatchedSubscriber → Exec S String
  unfolding escalate notify_by_name
  send_pagerduty_notification uc a subscribers = do
    key ← escalate uc.pagerduty_notifier subscribers a
    if is_set key then pure key else notify_by_name "pagerduty" uc.notifiers a

  -- the switch on the notifier's name
  unfoldable pub send_one :
      ProcessAlertUseCase S → List UseCaseMatchedSubscriber → Alert → Notifier → Exec S String
  unfolding send_slack_notification send_pagerduty_notification get_slack_user_ids_from_use_case
  send_one uc subscribers a n =
      if n.name == "slack"
      then send_slack_notification uc a (get_slack_user_ids_from_use_case subscribers)
      else if n.name == "pagerduty"
      then send_pagerduty_notification uc a subscribers
      else call_notifier n a

  abbrev set_reference : String → String → ℕ → Alert → Exec S Alert
  set_reference system reference at a w =
      let (a', h) = set_external_reference system reference at a w.heap in
      (ok a', record w { heap = h })

  -- The alert with its new reference; an error of the update is logged and dropped.
  unfoldable pub store_message_id : AlertStore S → Alert → String → String → Exec S Alert
  unfolding set_external_reference
  store_message_id repo a name message_id = do
    at ← now
    a' ← set_reference name message_id at a
    attempt (repo.update a')
    pure a'

  -- the loop of sendNotifications
  unfoldable pub send_all :
      ProcessAlertUseCase S
      → List UseCaseMatchedSubscriber
      → List Notifier
      → Alert
      → ProcessAlertOutput
      → Exec S ProcessAlertOutput
  unfolding send_one store_message_id
  send_all uc subscribers [] a out = pure out
  send_all uc subscribers (n ∷ ns) a out = do
    r ← attempt (send_one uc subscribers a n)
    elim r [
      | err e ↦ send_all uc subscribers ns a (failed_with out n.name e)
      | ok message_id ↦ do
        a' ← store_message_id uc.alert_repo a n.name message_id
        send_all uc subscribers ns a' (sent_by out n.name)
    ]

  unfoldable pub send_notifications :
      ProcessAlertUseCase S → Alert → ProcessAlertOutput → Exec S ProcessAlertOutput
  unfolding send_all matched_subscribers
  send_notifications uc a out =
      send_all uc (matched_subscribers uc.subscriber_matcher a) uc.notifiers a out

  -- the loop of updateNotifications; a notifier with no message is passed over
  unfoldable pub update_all : List Notifier → Alert → ProcessAlertOutput → Exec S ProcessAlertOutput
  unfolding get_external_reference
  update_all [] a out w = (ok out, w)
  update_all (n ∷ ns) a out w =
      let message_id = get_external_reference n.name w.heap a in
      let skip = update_all ns a out w in
      let send = (do
        r ← attempt (call_update n message_id a)
        elim r [
          | err e ↦ update_all ns a (failed_with out n.name e)
          | ok done ↦ update_all ns a (sent_by out n.name)
        ]) in
      if is_set message_id then send w else skip
