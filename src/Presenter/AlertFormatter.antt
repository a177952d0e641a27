-- ===== src/Presenter/AlertFormatter.antt =====
-- internal/adapter/presenter/slack_alert_formatter.go: FormatAlertStatus, FormatSilenceResult and
-- FormatAlertSummary. `now` is a reading of the clock in nanoseconds; a number of hours or days is read off
-- the float of the library, which is exact for durations of less than a century.
pub mod Limits
use alert_bridge.Base.{
  ℕ, zero, suc, ◌+◌, ◌-◌, ◌/◌, ◌*◌, ◌%◌, String, Bool, true, false, not, ◌&&◌, ◌||◌, Option, none,
  some, List, [], ◌∷◌, ◌++◌, ◌==◌, is_set, if◌then◌else◌, length, take, ltb,
}
use alert_bridge.Base.Assoc.{Map}
use alert_bridge.Base.Int.{ℤ, pos, negsuc}
use alert_bridge.Base.Text.{itoa}
use alert_bridge.Config.Validator.{int_text}
use alert_bridge.UseCase.Slack.Durations.{◌+++◌}
use alert_bridge.UseCase.Slack.ManageSilence.{SilenceResult}
use alert_bridge.Entity.Alert.{
  Alert, AlertSeverity, critical, warning, info, alert_state_text, is_acked,
}
use alert_bridge.Entity.SilenceMark.{SilenceMark, remaining_duration}
use alert_bridge.Presenter.Blocks.{
  Block, Calendar, header_block, section_block, divider, context_block, format_slack_time,
  slack_date_short,
}
use alert_bridge.Presenter.Message.{whole, is_below, nanos_minute, nanos_hour}

abbrev pub severity_marker : AlertSeverity → String
severity_marker critical = "🔴"
severity_marker warning = "🟡"
severity_marker info = "🔵"

unfoldable pub format_severity : String → String
format_severity s =
    if s == "critical"
    then "Critical"
    else if s == "warning"
    then "Warning"
    else if s == "info"
    then "Info"
    else s

-- n % 60 and the like, with the sign of n
abbrev rest_of : ℕ → ℤ → ℤ
rest_of m (pos n) = pos (n % m)
rest_of m (negsuc n) = elim (suc n % m) [ ℕ.zero ↦ pos 0 | ℕ.suc k ↦ negsuc k ]

unfoldable pub format_age : ℤ → String
format_age d =
    if is_below d nanos_minute
    then int_text (whole 1_000_000_000 d) +++ "s"
    else if is_below d nanos_hour
    then int_text (whole nanos_minute d) +++ "m"
    else if is_below d (24 * nanos_hour)
    then int_text (whole nanos_hour d)
      +++ "h "
      +++ int_text (rest_of 60 (whole nanos_minute d))
      +++ "m"
    else int_text (whole (24 * nanos_hour) d)
      +++ "d "
      +++ int_text (rest_of 24 (whole nanos_hour d))
      +++ "h"

unfoldable pub join_details : List String → String
join_details [] = ""
join_details (d ∷ []) = d
join_details (d ∷ e ∷ ds) = d +++ " | " +++ join_details (e ∷ ds)

-- time.Since(t)
abbrev since : ℕ → ℕ → ℤ
since now t = if ltb now t then negsuc (t - now - 1) else pos (now - t)

-- The text of a section for an alert.
unfoldable pub alert_text : ℕ → Alert → String
alert_text now a =
    "*"
    +++ severity_marker a.severity
    +++ " "
    +++ a.name
    +++ "*\n"
    +++ (if is_set a.summary then a.summary +++ "\n" else "")
    +++ "_"
    +++ join_details (
        (if is_set a.instance_name then ("Instance: `" +++ a.instance_name +++ "`") ∷ [] else [])
        ++ (if is_set a.target then ("Target: `" +++ a.target +++ "`") ∷ [] else [])
        ++ (("Duration: " +++ format_age (since now a.fired_at)) ∷ [])
        ++ (("State: "
              +++ (if is_acked a && is_set a.acked_by
                  then "Acknowledged by " +++ a.acked_by
                  else alert_state_text a.state))
            ∷ []))
    +++ "_"

unfoldable pub format_alert : ℕ → Alert → Block
format_alert now a = section_block (alert_text now a)

-- The loop over the alerts or silences, from index `i`: ten of the `total` are shown, with dividers
-- between them, and a note stands for the others.
unfoldable pub list_blocks :
    {A : Type 0} → (A → Block) → String → (total i : ℕ) → List A → List Block
list_blocks show what total i [] = []
list_blocks show what total i (x ∷ xs) =
    let rest = list_blocks show what total (suc i) xs in
    if ltb i 10
    then show x ∷ (if ltb i (total - 1) && ltb i 9 then divider ∷ rest else rest)
    else section_block ("_Showing 10 of " +++ itoa total +++ " " +++ what +++ "_") ∷ []

abbrev pub alert_blocks : ℕ → List Alert → List Block
alert_blocks now [] = section_block "No active alerts at this time." ∷ []
alert_blocks now (a ∷ rest) =
    list_blocks (format_alert now) "alerts" (suc (length rest)) 0 (a ∷ rest)

abbrev pub footer : Calendar → String → ℕ → Block
footer cal what now = context_block ((what +++ format_slack_time cal now slack_date_short) ∷ [])

unfoldable pub format_alert_status : Calendar → ℕ → List Alert → String → List Block
format_alert_status cal now alerts severity_filter =
    (header_block (
        if is_set severity_filter
        then "Alert Status Dashboard - " +++ format_severity severity_filter +++ " Alerts"
        else "Alert Status Dashboard")
      ∷ section_block (
          "Total Active Alerts: "
          +++ itoa (length alerts)
          +++ (if is_set severity_filter
              then " (filtered by severity: " +++ severity_filter +++ ")"
              else ""))
      ∷ divider
      ∷ [])
    ++ alert_blocks now alerts
    ++ (footer cal "Last updated: " now ∷ [])

unfoldable pub format_silence_details : Calendar → ℕ → SilenceMark → String → Block
format_silence_details cal now s prefix = section_block (
    (if is_set prefix then "*" +++ prefix +++ " Silence*\n" else "")
    +++ "ID: `"
    +++ s.id
    +++ "`\n"
    +++ (if is_set s.reason then "Reason: " +++ s.reason +++ "\n" else "")
    +++ (if ltb 0 (remaining_duration now s)
        then "Remaining: " +++ format_age (pos (remaining_duration now s)) +++ "\n"
        else "")
    +++ "Expires: "
    +++ format_slack_time cal s.end_at slack_date_short
    +++ "\n"
    +++ "Created by: "
    +++ s.created_by)

abbrev optional : (SilenceMark → Block) → Option SilenceMark → List Block
optional show none = []
optional show (some s) = show s ∷ []

abbrev is_none : Option SilenceMark → Bool
is_none none = true
is_none (some s) = false

abbrev silence_blocks : Calendar → ℕ → SilenceResult → List SilenceMark → List Block
silence_blocks cal now r [] =
    if is_none r.created && is_none r.deleted then section_block "_No active silences_" ∷ [] else []
silence_blocks cal now r (s ∷ ss) =
    list_blocks (λ t. format_silence_details cal now t "") "silences" (suc (length ss)) 0 (s ∷ ss)

unfoldable pub format_silence_result : Calendar → ℕ → SilenceResult → List Block
format_silence_result cal now r =
    (header_block "Silence Management" ∷ section_block r.message ∷ divider ∷ [])
    ++ optional (λ s. format_silence_details cal now s "Created") r.created
    ++ optional (λ s. format_silence_details cal now s "Deleted") r.deleted
    ++ silence_blocks cal now r r.silences
    ++ (footer cal "Updated: " now ∷ [])
