-- ===== src/UseCase/PagerDutyWebhook.antt =====
-- internal/usecase/pagerduty/handle_webhook.go. Logs and the timing of the queries are left out.
pub mod Found
pub mod Examples
use alert_bridge.Base.{
  String, Bool, true, false, ◌||◌, Option, none, some, List, [], ◌∷◌, ◌==◌, is_set, if◌then◌else◌,
}
use Prim.Native.String.{◌++◌}
use alert_bridge.Errors.{Result, ok, err}
use alert_bridge.Entity.Alert.{Alert, resolve, is_acked, is_resolved, get_external_reference}
use alert_bridge.Entity.AckEvent.{pagerduty}
use alert_bridge.UseCase.ProcessAlert.{find_firing_alert}
use alert_bridge.UseCase.SyncAck.{SyncAckInput, SyncAckOutput, SyncAckUseCase}
use alert_bridge.UseCase.SyncAck
use alert_bridge.UseCase.World.{
  World, Exec, Effect, AlertStore, updated, pure, wrapping, attempt, now, ◌>>=◌, ◌>>◌,
}

pub record HandlePagerDutyWebhookInput : Type 0 where
  pub event_type : String
  pub incident_id : String
  pub incident_key : String
  pub user_id : String
  pub user_email : String
  pub user_name : String
  pub status : String
  pub resolve_reason : String

pub record HandlePagerDutyWebhookOutput : Type 0 where
  pub processed : Bool
  pub alert_id : String
  pub message : String

-- `none` is a nil updater.
pub record HandleWebhookUseCase (S : Type 0) : Type 0 where
  pub alert_repo : AlertStore S
  pub sync_ack : SyncAckUseCase S
  pub slack_updater : Option (List Effect → String → Alert → Result (Unit {0}))

-- The first firing alert, else the first alert.
first_of : List Alert → Option Alert
first_of [] = none
first_of (a ∷ alerts) = some a

unfoldable pub prefer_firing : List Alert → Option Alert
unfolding first_of find_firing_alert
prefer_firing alerts = elim (find_firing_alert alerts) [ some a ↦ some a | none ↦ first_of alerts ]

abbrev output : Bool → String → String → HandlePagerDutyWebhookOutput
output processed alert_id message = record {
  processed = processed;
  alert_id = alert_id;
  message = message;
}

module _ {S : Type 0} where
  unfoldable pub find_by_key : HandleWebhookUseCase S → String → Exec S (Option Alert)
  unfolding prefer_firing
  find_by_key uc key =
      if key == ""
      then pure none
      else (do alerts ← uc.alert_repo.find_by_fingerprint key; pure (prefer_firing alerts))

  fall_back : HandleWebhookUseCase S → String → Option Alert → Exec S (Option Alert)
  unfolding find_by_key
  fall_back uc key (some a) = pure (some a)
  fall_back uc key none = find_by_key uc key

  unfoldable pub find_alert_by_incident_key :
      HandleWebhookUseCase S → String → String → Exec S (Option Alert)
  unfolding fall_back
  find_alert_by_incident_key uc key incident_id =
      if incident_id == "" then find_by_key uc key else (do
        found ← uc.alert_repo.find_by_external_reference "pagerduty" incident_id
        fall_back uc key found)

  -- An error of the updater is logged and dropped.
  call_updater :
      Option (List Effect → String → Alert → Result (Unit {0})) → String → Alert → Exec S (Unit {0})
  call_updater none message_id a w = (ok tt, w)
  call_updater (some update) message_id a w =
      if is_set message_id
      then (ok tt, record w { sent = updated "slack" message_id a ∷ w.sent })
      else (ok tt, w)

  abbrev slack_message_id : Alert → Exec S String
  slack_message_id a w = (ok (get_external_reference "slack" w.heap a), w)

  handle_acknowledged :
      HandleWebhookUseCase S
      → Alert
      → HandlePagerDutyWebhookInput
      → Exec S HandlePagerDutyWebhookOutput
  unfolding is_acked is_resolved SyncAck.execute call_updater get_external_reference
  handle_acknowledged uc a input =
      if is_acked a || is_resolved a then pure (output true a.id "already acknowledged") else (do
        out ← wrapping "syncing ack" (
            SyncAck.execute uc.sync_ack (record {
              alert_id = a.id;
              source = pagerduty;
              user_id = input.user_id;
              user_email = input.user_email;
              user_name = input.user_name;
              note = "";
              duration = none;
            }))
        message_id ← slack_message_id a
        call_updater uc.slack_updater message_id out.alert
        pure (output true a.id ("acknowledged by " ++ input.user_email)))

  handle_resolved : HandleWebhookUseCase S → Alert → Exec S HandlePagerDutyWebhookOutput
  unfolding is_resolved resolve call_updater get_external_reference
  handle_resolved uc a = if is_resolved a then pure (output true a.id "already resolved") else (do
    at ← now
    wrapping "updating alert" (uc.alert_repo.update (resolve at a))
    message_id ← slack_message_id a
    call_updater uc.slack_updater message_id (resolve at a)
    pure (output true a.id "resolved"))

  -- the switch on the event type
  handle_event :
      HandleWebhookUseCase S
      → HandlePagerDutyWebhookInput
      → Option Alert
      → Exec S HandlePagerDutyWebhookOutput
  unfolding handle_acknowledged handle_resolved
  handle_event uc input none = pure (output false "" "no matching alert found")
  handle_event uc input (some a) =
      if input.event_type == "incident.acknowledged"
      then handle_acknowledged uc a input
      else if input.event_type == "incident.resolved"
      then handle_resolved uc a
      else if input.event_type == "incident.unacknowledged"
      then pure (output true a.id "unacknowledged event noted")
      else pure (output false a.id "event type not handled")

  unfoldable pub execute :
      HandleWebhookUseCase S → HandlePagerDutyWebhookInput → Exec S HandlePagerDutyWebhookOutput
  unfolding find_alert_by_incident_key handle_event
  execute uc input = do
    found ←
        wrapping "finding alert"
          (find_alert_by_incident_key uc input.incident_key input.incident_id)
    handle_event uc input found
