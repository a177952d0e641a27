-- ===== src/UseCase/Slack/ManageSilence.antt =====
-- internal/usecase/slack/manage_silence.go. The modal that is opened is given by the labels that it
-- offers. The Slack client and the alert repository are never nil.
pub mod Commands
use alert_bridge.Base.{
  ℕ, String, Bool, not, Option, none, some, List, [], ◌∷◌, ◌==◌, is_set, if◌then◌else◌, length,
}
use alert_bridge.Base.Assoc.{Map}
use alert_bridge.Base.Int.{ℤ, pos, is_positive}
use alert_bridge.Base.Text.{itoa}
use alert_bridge.Errors.{Error, Result, ok, err, other, wrapped}
use alert_bridge.Entity.AckEvent.{slack}
use alert_bridge.Entity.SilenceMark.{
  SilenceMark, new_silence_mark, with_reason, with_matchers, has_entries,
}
use alert_bridge.Adapter.SlackCommand.{
  SilenceAction, SilenceRequest, create, list, delete, open_modal, from_modal, hour,
}
use alert_bridge.UseCase.Slack.Durations.{format_duration, ◌+++◌}
use alert_bridge.UseCase.Slack.ActiveLabels.{get_active_alert_labels}
use alert_bridge.UseCase.World.{
  World, Exec, Effect, AlertStore, SilenceStore, modal_opened, pure, raise, wrapping, attempt, now,
  fresh_id, ◌>>=◌, ◌>>◌,
}

pub record SilenceResult : Type 0 where
  pub action : SilenceAction
  pub silences : List SilenceMark
  pub created : Option SilenceMark
  pub deleted : Option SilenceMark
  pub message : String
  pub opened_modal : Bool

pub record SilenceModalClient : Type 0 where
  pub open_modal : List Effect → String → Map (List String) → Result (Unit {0})

pub record ManageSilenceUseCase (S : Type 0) : Type 0 where
  pub silence_repo : SilenceStore S
  pub alert_repo : AlertStore S
  pub slack_client : SilenceModalClient

abbrev blank : SilenceAction → String → SilenceResult
blank action message = record {
  action = action;
  silences = [];
  created = none;
  deleted = none;
  message = message;
  opened_modal = Bool.false;
}

abbrev pub labels_or_none : Result (Map (List String)) → Map (List String)
labels_or_none (ok labels) = labels
labels_or_none (err e) = []

abbrev pub reasoned : String → SilenceMark → SilenceMark
reasoned reason s = if is_set reason then with_reason reason s else s

abbrev pub matching : Map String → SilenceMark → SilenceMark
matching matchers s = if has_entries matchers then with_matchers matchers s else s

unfoldable pub created_message : ℤ → Map String → String
unfolding format_duration itoa
created_message duration matchers =
    let msg = "Created silence for " +++ format_duration duration in
    if has_entries matchers
    then msg +++ " with " +++ itoa (length matchers) +++ " matcher(s)"
    else msg

-- The result of a constructor that may refuse.
abbrev pub lift : {S A : Type 0} → Result A → Exec S A
lift (ok a) = pure a
lift (err e) = raise e

unfoldable pub duration_or_default : ℤ → ℤ
unfolding is_positive
duration_or_default d = if is_positive d then d else pos hour

module _ {S : Type 0} where
  abbrev call_open_modal : ManageSilenceUseCase S → String → Map (List String) → Exec S (Unit {0})
  call_open_modal uc trigger labels w = (
    uc.slack_client.open_modal w.sent trigger labels,
    record w { sent = modal_opened trigger labels ∷ w.sent },
  )

  unfoldable pub open_silence_modal : ManageSilenceUseCase S → SilenceRequest → Exec S SilenceResult
  unfolding get_active_alert_labels
  open_silence_modal uc req =
      let go = (do
        labels ← attempt (get_active_alert_labels uc.alert_repo)
        wrapping "failed to open modal" (call_open_modal uc req.trigger_id (labels_or_none labels))
        pure (record (blank SilenceAction.open_modal "Opening silence creation form...") {
          opened_modal = Bool.true;
        })) in
      if is_set req.trigger_id then go else raise (other "trigger ID is required to open modal")

  unfoldable pub create_silence : ManageSilenceUseCase S → SilenceRequest → Exec S SilenceResult
  unfolding new_silence_mark with_reason with_matchers created_message duration_or_default
  create_silence uc req = do
    id ← fresh_id
    at ← now
    s ←
        wrapping "failed to create silence"
          (lift (new_silence_mark id at (duration_or_default req.duration) req.user_name "" slack))
    wrapping "failed to save silence"
        (uc.silence_repo.save_silence (matching req.matchers (reasoned req.reason s)))
    pure
        (record (blank SilenceAction.create
          (created_message (duration_or_default req.duration) req.matchers)) {
            created = some (matching req.matchers (reasoned req.reason s));
          })

  unfoldable pub list_silences : ManageSilenceUseCase S → Exec S SilenceResult
  unfolding itoa
  list_silences uc = do
    silences ← wrapping "failed to list silences" uc.silence_repo.find_active_silences
    pure
        (record (blank SilenceAction.list
          ("Found " +++ itoa (length silences) +++ " active silence(s)")) { silences = silences })

  abbrev delete_found : ManageSilenceUseCase S → String → Option SilenceMark → Exec S SilenceResult
  delete_found uc id none = raise (other ("silence not found: " +++ id))
  delete_found uc id (some s) = do
    wrapping "failed to delete silence" (uc.silence_repo.delete_silence id)
    pure (record (blank SilenceAction.delete ("Deleted silence " +++ id)) { deleted = some s })

  unfoldable pub delete_silence : ManageSilenceUseCase S → SilenceRequest → Exec S SilenceResult
  delete_silence uc req =
      let go = (do
        found ←
            wrapping "failed to find silence" (uc.silence_repo.find_silence_by_id req.silence_id)
        delete_found uc req.silence_id found) in
      if is_set req.silence_id then go else raise (other "silence ID is required for delete action")

  unfoldable pub execute : ManageSilenceUseCase S → SilenceRequest → Exec S SilenceResult
  unfolding open_silence_modal create_silence list_silences delete_silence
  execute uc req = elim req.action [
    | open_modal ↦ open_silence_modal uc req
    | create ↦ create_silence uc req
    | from_modal ↦ create_silence uc req
    | list ↦ list_silences uc
    | delete ↦ delete_silence uc req
  ]
