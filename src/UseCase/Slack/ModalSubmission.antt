-- ===== src/UseCase/Slack/ModalSubmission.antt =====
-- internal/usecase/slack/handle_interaction.go: HandleModalSubmission, behind the form of a silence. The
-- values of the form are maps, listed in the order in which they are ranged over, which is any; a
-- missing value reads as the zero value. time.ParseDuration is an argument, and logging is left out.
pub mod Unmatched
use Prim.Native.String.{len, slice}
use text.Mathlib.Text.{starts_with}
use alert_bridge.Base.{
  ℕ, String, Bool, true, Option, none, some, List, [], ◌∷◌, ◌==◌, is_set, if◌then◌else◌, length,
}
use alert_bridge.Base.Assoc.{Map, lookup, insert, get_or}
use alert_bridge.Base.Int.{ℤ}
use alert_bridge.Base.Text.{cut, itoa}
use alert_bridge.Errors.{Result, ok, err, other}
use alert_bridge.Entity.AckEvent.{slack}
use alert_bridge.Entity.SilenceMark.{SilenceMark, new_silence_mark, with_reason, with_matchers}
use alert_bridge.UseCase.Slack.Durations.{format_duration, ◌+++◌}
use alert_bridge.UseCase.Slack.HandleInteraction.{SlackInteractionOutput}
use alert_bridge.UseCase.Slack.ManageSilence.{lift, reasoned, matching, created_message}
use alert_bridge.UseCase.World.{
  Exec, SilenceStore, pure, raise, wrapping, now, fresh_id, ◌>>=◌, ◌>>◌,
}

-- The part of slack.BlockAction that is read.
pub record BlockAction : Type 0 where
  pub value : String
  pub selected_option : String
  pub selected_options : List String

pub record InteractionCallback : Type 0 where
  pub callback_id : String
  pub values : Map (Map BlockAction)
  pub user_name : String

abbrev pub no_action : BlockAction
no_action = record { value = ""; selected_option = ""; selected_options = [] }

-- Value format is "key=value"; another one is passed over.
unfoldable pub add_options : List String → Map String → Map String
unfolding cut insert
add_options [] matchers = matchers
add_options (option ∷ options) matchers = elim (cut "=" option) [
  | some (key, value) ↦ add_options options (insert key value matchers)
  | none ↦ add_options options matchers
]

abbrev options_of : Option BlockAction → List String
options_of none = []
options_of (some action) = action.selected_options

abbrev pub matchers_prefix : String
matchers_prefix = "silence_matchers_"

-- strings.TrimPrefix of a text that has the prefix
abbrev label_key : String → String
label_key block_id = slice block_id (len matchers_prefix) (len block_id)

-- the loop over the blocks
unfoldable pub read_matchers : Map (Map BlockAction) → Map String → Map String
unfolding add_options lookup
read_matchers [] matchers = matchers
read_matchers ((block_id, block) ∷ values) matchers =
    let options = options_of (lookup ("silence_matchers_select_" +++ label_key block_id) block) in
    let next = add_options options matchers in
    read_matchers values (if starts_with block_id matchers_prefix then next else matchers)

unfoldable pub read_reason : Map (Map BlockAction) → String
unfolding get_or
read_reason values =
    (get_or no_action "silence_reason_input" (get_or [] "silence_reason" values)).value

unfoldable pub read_duration : Map (Map BlockAction) → String
unfolding get_or
read_duration values =
    (get_or no_action "silence_duration_select"
      (get_or [] "silence_duration" values)).selected_option

abbrev pub duration_error : String → Result ℤ → Result ℤ
duration_error text (ok d) = ok d
duration_error text (err e) = err (other ("invalid duration: " +++ text))

module _ {S : Type 0} (parse_duration : String → Result ℤ) where
  unfoldable pub handle_silence_modal_submission :
      SilenceStore S → InteractionCallback → Exec S SlackInteractionOutput
  unfolding read_duration read_reason read_matchers new_silence_mark with_reason with_matchers
      created_message
  handle_silence_modal_submission silence_repo payload = do
    duration ← lift (
        duration_error (read_duration payload.values)
          (parse_duration (read_duration payload.values)))
    id ← fresh_id
    at ← now
    s ←
        wrapping "failed to create silence"
          (lift (new_silence_mark id at duration payload.user_name "" slack))
    let matchers = read_matchers payload.values []
    let s' = matching matchers (reasoned (read_reason payload.values) s)
    wrapping "failed to save silence" (silence_repo.save_silence s')
    pure (record {
      success = true;
      message = created_message duration matchers;
      silence_id = s'.id;
      silence_end_at = some s'.end_at;
    })

  unfoldable pub handle_modal_submission :
      SilenceStore S → InteractionCallback → Exec S SlackInteractionOutput
  unfolding handle_silence_modal_submission
  handle_modal_submission silence_repo payload =
      let submission = handle_silence_modal_submission silence_repo payload in
      if payload.callback_id == "silence_create_modal"
      then submission
      else raise (other ("unknown modal callback: " +++ payload.callback_id))
