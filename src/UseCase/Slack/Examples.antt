-- ===== src/UseCase/Slack/Examples.antt =====
-- Tests and instances for the use cases of Slack.
use alert_bridge.Base.{
  ℕ, false, some, ◌≤◌, ◌<◌, String, ◌≡◌, ◌≢◌, ◌⊎◌, refl, List, [], ◌∷◌, length, In, arith, eq_iff,
}
use alert_bridge.Base.Assoc.{lookup}
use alert_bridge.Base.Int.{pos, is_positive, add_duration}
use alert_bridge.Errors.{ok}
use alert_bridge.Entity.Alert.{Alert, acknowledged}
use alert_bridge.Entity.AlertSummary.{AlertSummary, UserAckCount, acknowledged_count}
use alert_bridge.Entity.AlertSummary.Ranking.{IsDescending, AtLeast}
use alert_bridge.Memory.Examples.{one_alert-IsIndexed, one_silence-IsListed}
use alert_bridge.Adapter.SlackCommand.{SlackCommandDto, parse_silence_request}
use alert_bridge.UseCase.MemoryStores.{Stores, memory_alert_store}
use alert_bridge.UseCase.ProcessAlert
use alert_bridge.UseCase.ProcessAlert.Dedup
use alert_bridge.UseCase.Slack.HandleInteraction
use alert_bridge.UseCase.Slack.HandleInteraction.{
  SlackClient, SlackInteractionInput, SlackInteractionOutput,
}
use alert_bridge.UseCase.Slack.HandleInteraction.Silenced.{interaction, silence_button-quiets}
use alert_bridge.UseCase.Slack.ManageSilence
use alert_bridge.UseCase.Slack.ManageSilence.{SilenceModalClient}
use alert_bridge.UseCase.Slack.ManageSilence.Commands.{in_memory, OneFewer, command-OneFewer}
use alert_bridge.UseCase.Slack.SummarizeAlerts
use alert_bridge.UseCase.Slack.SummarizeAlerts.{summarize}
use alert_bridge.UseCase.Slack.SummarizeAlerts.Top.{acks, count_of, summarize-top_acknowledgers}
use alert_bridge.UseCase.Slack.SummarizeAlerts.OverMemory.{memory_summary}
use alert_bridge.Entity.SilenceMark.{SilenceMark, matches_alert}
use alert_bridge.UseCase.MemoryStores.{memory_silence_store}
use alert_bridge.UseCase.Slack.ModalSubmission.{
  InteractionCallback, no_action, read_matchers, handle_modal_submission,
}
use alert_bridge.UseCase.Slack.ModalSubmission.Unmatched.{modal-unmatched}
use alert_bridge.UseCase.World.{World}
use alert_bridge.Samples.{morning, disk_full, input, use_case}

abbrev taken : Alert
taken = record disk_full { id = "a-3"; state = acknowledged; acked_by = "kim@example.com" }

abbrev two : List Alert
two = disk_full ∷ taken ∷ []

summarize-top_acknowledgers_example :
    (length (summarize two).top_acknowledgers ≤ 5)
    × IsDescending (summarize two).top_acknowledgers
    × ((c : UserAckCount) → In c (summarize two).top_acknowledgers → c.count ≡ acks c.user_name two)
    × ((user : String)
        → 0 < acks user two
        → In (count_of user (acks user two)) (summarize two).top_acknowledgers
          ⊎ ((length (summarize two).top_acknowledgers ≡ 5)
              × AtLeast (acks user two) (summarize two).top_acknowledgers))
summarize-top_acknowledgers_example = summarize-top_acknowledgers two

memory_summary_example :
    (s : AlertSummary) × ((SummarizeAlerts.execute memory_alert_store (pos 60) morning).0 ≡ ok s)
    × (acknowledged_count s ≡ 0)
    × (s.top_acknowledgers ≡ [])
memory_summary_example = memory_summary (pos 60) morning

abbrev client : SlackClient
client = record {
  get_user_email = λ sent user. ok "kim@example.com";
  update_message = λ sent id a. ok tt;
  post_thread_reply = λ sent id text. ok tt;
}

abbrev click : SlackInteractionInput
click = record {
  action_id = "silence_a-1";
  alert_id = "";
  user_id = "U1";
  user_name = "kim";
  user_email = "";
  response_url = "";
  channel_id = "C1";
  message_ts = "1.2";
  value = "50ns";
  trigger_id = "";
}

abbrev clicked : World Stores
clicked =
    (HandleInteraction.execute (λ text. ok (pos 50)) (λ t. "then") (interaction [] client) click
      morning).1

abbrev afterwards : World Stores
afterwards = record morning { ticks = 9; store = clicked.store }

fp_is_set : disk_full.fingerprint ≢ ""
fp_is_set e = ground (arith, eq_iff "fp-1" "")

silence_button-quiets_example :
    (ProcessAlert.execute
      (Dedup.in_memory use_case)
      (record input { fingerprint = "fp-1" })
      afterwards).1.sent
    ≡ []
unfolding lookup HandleInteraction.parse_action_id is_positive add_duration
silence_button-quiets_example =
    silence_button-quiets (λ text. ok (pos 50)) (λ t. "then") [] client click "a-1" disk_full
      (pos 50) morning afterwards use_case (record input { fingerprint = "fp-1" })
      one_alert-IsIndexed one_silence-IsListed refl refl refl refl refl refl fp_is_set refl
      (omega arith) (omega arith)

abbrev pub modal_client : SilenceModalClient
modal_client = record { open_modal = λ sent trigger labels. ok tt }

abbrev pub delete_command : SlackCommandDto
delete_command = record {
  command = "/silence";
  text = "delete s-1";
  user_id = "U1";
  user_name = "kim";
  channel_id = "C1";
  channel_name = "ops";
  team_id = "T1";
  response_url = "";
  trigger_id = "";
}

command-OneFewer_example :
    OneFewer
      (parse_silence_request delete_command).silence_id
      morning
      (ManageSilence.execute
        (in_memory modal_client)
        (parse_silence_request delete_command)
        morning).1
command-OneFewer_example = command-OneFewer modal_client delete_command morning

abbrev pub form : InteractionCallback
form = record {
  callback_id = "silence_create_modal";
  values =
      (
        "silence_duration",
        ("silence_duration_select", record no_action { selected_option = "1h" }) ∷ [],
      )
      ∷ ("silence_reason", ("silence_reason_input", record no_action { value = "upgrade" }) ∷ [])
      ∷ [];
  user_name = "kim";
}

labelled :
    read_matchers
      ((
        "silence_matchers_team",
        ("silence_matchers_select_team", record no_action { selected_options = "team=infra" ∷ [] })
            ∷ [],
      )
        ∷ [])
      []
    ≡ ("team", "infra") ∷ []
unfolding read_matchers
labelled = refl

modal-unmatched_example :
    (out : SlackInteractionOutput) × (m : SilenceMark) × ((handle_modal_submission
        (λ text. ok (pos 3600))
        memory_silence_store
        form
        morning).0
      ≡ ok out)
    × (lookup out.silence_id
          (handle_modal_submission
            (λ text. ok (pos 3600))
            memory_silence_store
            form
            morning).1.store.silences.silences
        ≡ some m)
    × ((now : ℕ) (a : Alert) → matches_alert now a m ≡ false)
unfolding is_positive read_matchers
modal-unmatched_example =
    modal-unmatched (λ text. ok (pos 3600)) form (pos 3600) morning refl refl refl refl
