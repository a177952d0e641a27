-- ===== src/UseCase/Slack/HandleInteraction.antt =====
-- internal/usecase/slack/handle_interaction.go: Execute, behind the buttons of a message. time.ParseDuration
-- and the format of a time are arguments, and logging is left out.
pub mod Silenced
use alert_bridge.Base.{
  ℕ, String, Bool, true, Option, none, some, List, [], ◌∷◌, ◌==◌, is_set, if◌then◌else◌,
}
use alert_bridge.Base.Int.{ℤ}
use alert_bridge.Base.Text.{cut}
use alert_bridge.Errors.{Error, Result, ok, err, other, sentinel, wrapped, alert_not_found}
use alert_bridge.Entity.AckEvent.{slack}
use alert_bridge.Entity.Alert.{Alert}
use alert_bridge.Entity.SilenceMark.{SilenceMark, new_silence_mark, for_fingerprint, with_reason}
use alert_bridge.UseCase.Slack.Durations.{format_duration, ◌+++◌}
use alert_bridge.UseCase.Slack.ManageSilence.{lift}
use alert_bridge.UseCase.SyncAck
use alert_bridge.UseCase.SyncAck.{SyncAckUseCase, SyncAckInput, SyncAckOutput}
use alert_bridge.UseCase.World.{
  World, Exec, Effect, AlertStore, SilenceStore, updated, replied, pure, raise, wrapping, attempt,
  now, fresh_id, ◌>>=◌, ◌>>◌,
}

pub record SlackInteractionInput : Type 0 where
  pub action_id : String
  pub alert_id : String
  pub user_id : String
  pub user_name : String
  pub user_email : String
  pub response_url : String
  pub channel_id : String
  pub message_ts : String
  pub value : String
  pub trigger_id : String

pub record SlackInteractionOutput : Type 0 where
  pub success : Bool
  pub message : String
  pub silence_id : String
  pub silence_end_at : Option ℕ

pub record SlackClient : Type 0 where
  pub get_user_email : List Effect → String → Result String
  pub update_message : List Effect → String → Alert → Result (Unit {0})
  pub post_thread_reply : List Effect → String → String → Result (Unit {0})

pub record HandleInteractionUseCase (S : Type 0) : Type 0 where
  pub alert_repo : AlertStore S
  pub silence_repo : SilenceStore S
  pub sync_ack : SyncAckUseCase S
  pub slack_client : SlackClient

unfoldable pub parse_action_id : String → String × String
unfolding cut
parse_action_id action_id = elim (cut "_" action_id) [ none ↦ (action_id, "") | some split ↦ split ]

abbrev pub email_or_id : Result String → String → String
email_or_id (ok email) user_id = email
email_or_id (err e) user_id = user_id

abbrev pub message_id : SlackInteractionInput → String
message_id input = input.channel_id +++ ":" +++ input.message_ts

abbrev pub ack_input : SlackInteractionInput → String → String → Option ℤ → SyncAckInput
ack_input input alert_id email duration = record {
  alert_id = alert_id;
  source = slack;
  user_id = input.user_id;
  user_email = email;
  user_name = input.user_name;
  note = "";
  duration = duration;
}

abbrev pub wrap_parse : Result ℤ → Result ℤ
wrap_parse (ok d) = ok d
wrap_parse (err e) = err (wrapped "invalid silence duration" e)

unfoldable pub silenced_output : ℤ → SilenceMark → SlackInteractionOutput
unfolding format_duration
silenced_output duration s = record {
  success = true;
  message = "Silenced for " +++ format_duration duration;
  silence_id = s.id;
  silence_end_at = some s.end_at;
}

module _ {S : Type 0} (parse_duration : String → Result ℤ) (format_time : ℕ → String) where
  abbrev call_update : SlackClient → String → Alert → Exec S (Unit {0})
  call_update client id a w =
      (client.update_message w.sent id a, record w { sent = updated "slack" id a ∷ w.sent })

  abbrev call_reply : SlackClient → String → String → Exec S (Unit {0})
  call_reply client id text w =
      (client.post_thread_reply w.sent id text, record w { sent = replied id text ∷ w.sent })

  unfoldable pub user_email : SlackClient → SlackInteractionInput → Exec S String
  user_email client input w = (
    ok (
        if is_set input.user_email
        then input.user_email
        else email_or_id (client.get_user_email w.sent input.user_id) input.user_id),
    w,
  )

  -- an error of the update is logged
  unfoldable pub handle_ack :
      HandleInteractionUseCase S
      → String
      → SlackInteractionInput
      → String
      → Exec S SlackInteractionOutput
  handle_ack uc alert_id input email = do
    out ← wrapping "syncing ack" (SyncAck.execute uc.sync_ack (ack_input input alert_id email none))
    attempt (call_update uc.slack_client (message_id input) out.alert)
    pure (record {
      success = true;
      message = "Alert acknowledged by " +++ input.user_name;
      silence_id = "";
      silence_end_at = none;
    })

  abbrev found_or_raise : Option Alert → Exec S Alert
  found_or_raise none = raise (sentinel alert_not_found)
  found_or_raise (some a) = pure a

  -- The silence of the button: for the fingerprint of the alert.
  unfoldable pub make_silence : SlackInteractionInput → String → Alert → ℤ → Exec S SilenceMark
  unfolding new_silence_mark for_fingerprint with_reason
  make_silence input email a duration = do
    id ← fresh_id
    at ← now
    s ←
        wrapping "creating silence"
          (lift (new_silence_mark id at duration input.user_name email slack))
    pure (
        with_reason ("Silenced from Slack by " +++ input.user_name)
          (for_fingerprint a.fingerprint s))

  abbrev update_acked : SlackClient → String → Result SyncAckOutput → Exec S (Result (Unit {0}))
  update_acked client id (ok out) = attempt (call_update client id out.alert)
  update_acked client id (err e) = pure (err e)

  -- Errors of the acknowledgement and of the calls to Slack are logged.
  unfoldable pub acknowledge_and_tell :
      HandleInteractionUseCase S
      → String
      → SlackInteractionInput
      → String
      → ℤ
      → SilenceMark
      → Exec S SlackInteractionOutput
  unfolding format_duration silenced_output
  acknowledge_and_tell uc alert_id input email duration s = do
    acked ← attempt (SyncAck.execute uc.sync_ack (ack_input input alert_id email (some duration)))
    update_acked uc.slack_client (message_id input) acked
    attempt (
        call_reply uc.slack_client (message_id input) (
          "🔕 Silenced for "
          +++ format_duration duration
          +++ " by "
          +++ input.user_name
          +++ " (until "
          +++ format_time s.end_at
          +++ ")"))
    pure (silenced_output duration s)

  unfoldable pub handle_silence :
      HandleInteractionUseCase S
      → String
      → SlackInteractionInput
      → String
      → Exec S SlackInteractionOutput
  unfolding make_silence acknowledge_and_tell
  handle_silence uc alert_id input email = do
    duration ← lift (wrap_parse (parse_duration input.value))
    found ← wrapping "finding alert" (uc.alert_repo.find_by_id alert_id)
    a ← found_or_raise found
    s ← make_silence input email a duration
    wrapping "saving silence" (uc.silence_repo.save_silence s)
    acknowledge_and_tell uc alert_id input email duration s

  unfoldable pub execute :
      HandleInteractionUseCase S → SlackInteractionInput → Exec S SlackInteractionOutput
  unfolding parse_action_id user_email handle_ack handle_silence
  execute uc input = do
    email ← user_email uc.slack_client input
    let (action, alert_id) = parse_action_id input.action_id
    if action == "ack"
        then handle_ack uc alert_id input email
        else if action == "silence"
        then handle_silence uc alert_id input email
        else raise (other ("unknown action type: " +++ action))
