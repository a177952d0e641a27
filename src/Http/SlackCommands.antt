-- ===== src/Http/SlackCommands.antt =====
-- internal/adapter/handler/slack_commands.go and internal/adapter/dto/slack_response_dto.go, and
-- PeriodDescription of slack_command_dto.go. The formatter reads the clock once for a message.
-- What the libraries do is given: `parse` is slack.SlashCommandParse, `marshal` the JSON of a
-- response, `show` the text of a duration and `hours` its whole hours. A goroutine is a function of
-- the state that it runs in.
pub mod Answers
pub mod Examples
use alert_bridge.Base.{
  ℕ, suc, String, Bool, false, Option, none, some, List, [], ◌∷◌, ◌==◌, ◌/◌, ltb, is_set,
  if◌then◌else◌, length,
}
use alert_bridge.Base.Int.{ℤ, pos, negsuc, eqb_ℤ}
use alert_bridge.Base.Text.{itoa}
use alert_bridge.Errors.{Error, Result, ok, err}
use alert_bridge.Errors.Messages.{error_text}
use alert_bridge.Entity.Alert.{Alert}
use alert_bridge.Entity.AlertSummary.{AlertSummary}
use alert_bridge.Adapter.SlackCommand.{
  SilenceAction, SilenceRequest, SlackCommandDto, create, list, delete, open_modal, from_modal,
  severity_filter, period_filter, parse_silence_request,
}
use alert_bridge.UseCase.Slack.Durations.{◌+++◌}
use alert_bridge.UseCase.Slack.ManageSilence
use alert_bridge.UseCase.Slack.ManageSilence.{ManageSilenceUseCase, SilenceResult}
use alert_bridge.UseCase.Slack.QueryAlertStatus
use alert_bridge.UseCase.Slack.SummarizeAlerts
use alert_bridge.UseCase.World.{World, AlertStore}
use alert_bridge.Presenter.Blocks.{Block, Calendar}
use alert_bridge.Presenter.AlertFormatter.{format_alert_status, format_silence_result}
use alert_bridge.Presenter.SummaryFormatter.{format_alert_summary}
use alert_bridge.Http.Request.{Request, Response, deny}

-- `attachments` is never set.
pub record SlackResponseDto : Type 0 where
  pub response_type : String
  pub text : String
  pub blocks : List Block

unfoldable pub new_ephemeral_response : String → SlackResponseDto
new_ephemeral_response text = record { response_type = "ephemeral"; text = text; blocks = [] }

unfoldable pub new_ephemeral_with_blocks : String → List Block → SlackResponseDto
new_ephemeral_with_blocks text blocks = record {
  response_type = "ephemeral";
  text = text;
  blocks = blocks;
}

-- The state of the process: that of the use cases, and the posts to response URLs, latest first.
pub record Process (S : Type 0) : Type 0 where
  pub world : World S
  pub posts : List (String × String)

pub record SlackCommandsHandler (S : Type 0) : Type 0 where
  pub alert_repo : AlertStore S
  pub manage_silence : ManageSilenceUseCase S
  pub calendar : Calendar

pub record SlackCommandInfo : Type 0 where
  pub command : String
  pub description : String
  pub usage_hint : String
  pub request_url : String
  pub should_escape : Bool
  pub autocomplete_hint : String

abbrev pub slack_commands : List SlackCommandInfo
slack_commands =
    record {
      command = "/alert-status";
      description = "Check current alert status";
      usage_hint = "[critical|warning|info]";
      request_url = "/webhook/slack/commands";
      should_escape = false;
      autocomplete_hint = "Filter alerts by severity level";
    }
    ∷ record {
      command = "/summary";
      description = "Get alert summary statistics";
      usage_hint = "[1h|24h|7d|1w|today|week|all]";
      request_url = "/webhook/slack/commands";
      should_escape = false;
      autocomplete_hint = "Specify time period for summary";
    }
    ∷ record {
      command = "/silence";
      description = "Create or manage alert silences";
      usage_hint = "[create|list|delete] [options]";
      request_url = "/webhook/slack/commands";
      should_escape = false;
      autocomplete_hint = "create 1h, list, delete <id>";
    }
    ∷ []

-- An action as the "%s" of a message shows it.
unfoldable pub action_text : SilenceAction → String
action_text create = "create"
action_text list = "list"
action_text delete = "delete"
action_text open_modal = "open_modal"
action_text from_modal = "from_modal"

abbrev describe_hours : (ℤ → String) → ℤ → ℤ → String
describe_hours show period (negsuc n) = show period
describe_hours show period (pos h) =
    if ltb h 1
    then show period
    else if ltb h 24
    then "last " +++ itoa h +++ " hour(s)"
    else if ltb (h / 24) 7
    then "last " +++ itoa (h / 24) +++ " day(s)"
    else "last " +++ itoa (h / 24 / 7) +++ " week(s)"

unfoldable pub period_description : (ℤ → String) → (ℤ → ℤ) → SlackCommandDto → String
period_description show hours d =
    let period = period_filter d in
    if eqb_ℤ period (pos 0) then "all time" else describe_hours show period (hours period)

module _ (marshal : SlackResponseDto → Option String) {S : Type 0} where
  abbrev post : String → Option String → Process S → Process S
  post url none p = p
  post url (some json) p = record p { posts = (url, json) ∷ p.posts }

  -- Whatever Slack answers to the post, it is only logged.
  unfoldable pub send_delayed_response : String → SlackResponseDto → Process S → Process S
  send_delayed_response url response p = if url == "" then p else post url (marshal response) p

  -- time.Now() in the formatter
  abbrev at : World S → ℕ
  at w = w.supply.clock w.ticks

  abbrev ticked : World S → World S
  ticked w = record w { ticks = suc w.ticks }

  abbrev tell : SlackCommandDto → SlackResponseDto → Process S → Process S
  tell cmd response p = send_delayed_response cmd.response_url response p

  abbrev status_told :
      SlackCommandsHandler S → SlackCommandDto → Result (List Alert) → Process S → Process S
  status_told h cmd (err e) p =
      tell cmd (new_ephemeral_response "Failed to fetch alert status. Please try again later.") p
  status_told h cmd (ok alerts) p =
      tell cmd
        (new_ephemeral_with_blocks ("Found " +++ itoa (length alerts) +++ " active alert(s)")
          (format_alert_status h.calendar (at p.world) alerts (severity_filter cmd)))
        (record p { world = ticked p.world })

  unfoldable pub handle_alert_status :
      SlackCommandsHandler S → SlackCommandDto → Process S → Process S
  handle_alert_status h cmd p =
      let (r, w) = QueryAlertStatus.execute h.alert_repo (severity_filter cmd) p.world in
      status_told h cmd r (record p { world = w })

  abbrev pub silence_told :
      SlackCommandsHandler S
      → SlackCommandDto
      → SilenceRequest
      → Result SilenceResult
      → Process S
      → Process S
  silence_told h cmd req (err e) p =
      tell cmd
        (new_ephemeral_response
          ("Failed to " +++ action_text req.action +++ " silence: " +++ error_text e))
        p
  silence_told h cmd req (ok result) p =
      if result.opened_modal
      then p
      else tell cmd
          (new_ephemeral_with_blocks result.message
            (format_silence_result h.calendar (at p.world) result))
          (record p { world = ticked p.world })

  unfoldable pub handle_silence : SlackCommandsHandler S → SlackCommandDto → Process S → Process S
  handle_silence h cmd p =
      let (r, w) = ManageSilence.execute h.manage_silence (parse_silence_request cmd) p.world in
      silence_told h cmd (parse_silence_request cmd) r (record p { world = w })

  module _ (show : ℤ → String) (hours : ℤ → ℤ) where
    abbrev summary_told :
        SlackCommandsHandler S → SlackCommandDto → Result AlertSummary → Process S → Process S
    summary_told h cmd (err e) p =
        tell cmd (new_ephemeral_response "Failed to generate summary. Please try again later.") p
    summary_told h cmd (ok s) p =
        tell cmd
          (new_ephemeral_with_blocks
            ("Alert summary ("
              +++ period_description show hours cmd
              +++ "): "
              +++ itoa s.total_alerts
              +++ " alert(s)")
            (format_alert_summary h.calendar (at p.world) s (period_description show hours cmd)))
          (record p { world = ticked p.world })

    unfoldable pub handle_summary : SlackCommandsHandler S → SlackCommandDto → Process S → Process S
    handle_summary h cmd p =
        let (r, w) = SummarizeAlerts.execute h.alert_repo (period_filter cmd) p.world in
        summary_told h cmd r (record p { world = w })

    unfoldable pub process_command :
        SlackCommandsHandler S → SlackCommandDto → Process S → Process S
    process_command h cmd p =
        if cmd.command == "/alert-status"
        then handle_alert_status h cmd p
        else if cmd.command == "/summary"
        then handle_summary h cmd p
        else if cmd.command == "/silence"
        then handle_silence h cmd p
        else tell cmd (new_ephemeral_response "Unknown command") p

-- The answer, and the command whose goroutine is started, if any. `encode` writes the JSON to the
-- connection, `none` when that fails.
abbrev acknowledged : Option String → SlackCommandDto → Response × Option SlackCommandDto
acknowledged none cmd = (record { status = 200; body = "" }, none)
acknowledged (some body) cmd = (record { status = 200; body = body }, some cmd)

unfoldable pub handle_slash_command :
    (SlackResponseDto → Option String) → Option SlackCommandDto → Response × Option SlackCommandDto
handle_slash_command encode none = deny 400 "Invalid slash command" none
handle_slash_command encode (some cmd) =
    acknowledged (encode (new_ephemeral_response "Fetching alert status...")) cmd

-- HandleListCommands; `encode_list` is the JSON of the commands and their number.
unfoldable pub handle_list_commands : (List SlackCommandInfo → ℕ → String) → Response
handle_list_commands encode_list = record {
  status = 200;
  body = encode_list slack_commands (length slack_commands);
}

-- (*SlackCommandsHandler).ServeHTTP
unfoldable pub serve_slack_commands :
    (Request → Option SlackCommandDto)
    → (SlackResponseDto → Option String)
    → (List SlackCommandInfo → ℕ → String)
    → Request
    → Response × Option SlackCommandDto
serve_slack_commands parse encode encode_list r =
    if r.method == "GET"
    then (handle_list_commands encode_list, none)
    else if r.method == "POST"
    then handle_slash_command encode (parse r)
    else deny 405 "method not allowed" none
