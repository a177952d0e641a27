-- ===== src/Http/SlackCommands/Examples.antt =====
-- Tests and instances for the slash commands.
use alert_bridge.Base.{String, ◌≡◌, ◌≢◌, refl, some, [], eq_iff, arith}
use alert_bridge.Base.Int.{pos}
use alert_bridge.Base.Text.{itoa}
use alert_bridge.Adapter.SlackCommand.{SlackCommandDto, period_filter}
use alert_bridge.Presenter.Examples.{calendar}
use alert_bridge.Samples.{morning}
use alert_bridge.UseCase.MemoryStores.{Stores, memory_alert_store}
use alert_bridge.UseCase.Slack.Examples.{modal_client, delete_command}
use alert_bridge.UseCase.Slack.ManageSilence.Commands.{in_memory}
use alert_bridge.Http.SlackCommands.{
  SlackResponseDto, Process, SlackCommandsHandler, process_command, period_description,
}
use alert_bridge.Http.SlackCommands.Answers.{IsAnswered, process_command-IsAnswered}

abbrev handler : SlackCommandsHandler Stores
handler = record {
  alert_repo = memory_alert_store;
  manage_silence = in_memory modal_client;
  calendar = calendar;
}

abbrev process : Process Stores
process = record { world = morning; posts = [] }

abbrev json : SlackResponseDto → String
json r = r.text

abbrev command : String → String → SlackCommandDto
command name text = record delete_command {
  command = name;
  text = text;
  response_url = "url";
  trigger_id = "t";
}

url_set : (command "/silence" "create").response_url ≢ ""
url_set e = ground (arith, eq_iff "url" "")

process_command-IsAnswered_example : IsAnswered json (command "/silence" "create") process (
    process_command
      (λ r. some (json r))
      (λ d. "")
      (λ d. d)
      handler
      (command "/silence" "create")
      process)
process_command-IsAnswered_example =
    process_command-IsAnswered json handler (command "/silence" "create") url_set (λ d. "") (λ d. d)
      process

three_days : period_description (λ d. "") (λ d. pos 80) (command "/summary" "80h") ≡ "last 3 day(s)"
unfolding period_description period_filter itoa
three_days = refl
