-- ===== src/Presenter/Blocks.antt =====
-- The blocks of Slack's Block Kit that the program builds, and FormatSlackTime of
-- internal/infrastructure/slack/message_builder.go.
use alert_bridge.Base.{ℕ, String, List}
use alert_bridge.Base.Int.{ℤ}
use alert_bridge.Config.Validator.{int_text}
use alert_bridge.UseCase.Slack.Durations.{◌+++◌}

-- A button has its action id, its value and its text; a list its action id, its placeholder and its
-- options, each with a value and a text.
pub data Element : Type 0 where
  button : (action_id value text : String) → Element
  select : (action_id placeholder : String) → List (String × String) → Element

pub data Block : Type 0 where
  header_block section_block : String → Block
  divider : Block
  context_block : List String → Block
  action_block : String → List Element → Block

-- t.Unix(), and t.UTC().Format("2006-01-02 15:04 UTC")
pub record Calendar : Type 0 where
  pub unix : ℕ → ℤ
  pub fallback : ℕ → String

unfoldable pub format_slack_time : Calendar → ℕ → String → String
format_slack_time cal t format =
    "<!date^" +++ int_text (cal.unix t) +++ "^" +++ format +++ "|" +++ cal.fallback t +++ ">"

abbrev pub slack_date_short : String
slack_date_short = "{date_short} {time}"
