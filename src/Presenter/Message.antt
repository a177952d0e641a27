-- ===== src/Presenter/Message.antt =====
-- internal/infrastructure/slack/message_builder.go. `show_duration` is (time.Duration).String. A number
-- of hours or days is read off the float of the library, which is exact for durations of less than a
-- century.
pub mod Buttons
use alert_bridge.Base.{
  ℕ, suc, ◌/◌, ◌*◌, String, Bool, true, false, not, ◌&&◌, ◌||◌, Option, none, some, List, [], ◌∷◌,
  ◌++◌, ◌==◌, is_set, if◌then◌else◌, map, ltb, eqb,
}
use alert_bridge.Base.Int.{ℤ, pos, negsuc}
use alert_bridge.Config.Validator.{int_text}
use alert_bridge.Config.Types.{minutes}
use alert_bridge.UseCase.Slack.Durations.{◌+++◌}
use alert_bridge.PagerDuty.Event.{join_words}
use alert_bridge.Entity.Alert.{Alert, AlertSeverity, critical, warning, info, is_acked, is_resolved}
use alert_bridge.Presenter.Blocks.{
  Block, Element, Calendar, header_block, section_block, divider, context_block, action_block,
  button, select, format_slack_time, slack_date_short,
}

unfoldable pub new_message_builder : List ℤ → List ℤ
new_message_builder [] = minutes 15 ∷ minutes 60 ∷ minutes 240 ∷ minutes 1440 ∷ []
new_message_builder (d ∷ ds) = d ∷ ds

unfoldable pub build_user_mentions : List String → String
build_user_mentions ids = join_words (map (λ id. "<@" +++ id +++ ">") ids)

-- int(d.Minutes()) and the like: whole units of a duration, cut off towards zero
abbrev pub whole : ℕ → ℤ → ℤ
whole unit (pos n) = pos (n / unit)
whole unit (negsuc n) = elim (suc n / unit) [ ℕ.zero ↦ pos 0 | ℕ.suc m ↦ negsuc m ]

abbrev pub nanos_minute : ℕ
nanos_minute = 60_000_000_000

abbrev pub nanos_hour : ℕ
nanos_hour = 3_600_000_000_000

abbrev pub is_below : ℤ → ℕ → Bool
is_below (pos n) unit = ltb n unit
is_below (negsuc n) unit = true

abbrev plural : ℤ → String → String → String
plural (pos n) one many = if eqb n 1 then one else int_text (pos n) +++ many
plural (negsuc n) one many = int_text (negsuc n) +++ many

unfoldable pub format_duration : ℤ → String
format_duration d =
    if is_below d nanos_hour
    then int_text (whole nanos_minute d) +++ " min"
    else if is_below d (24 * nanos_hour)
    then plural (whole nanos_hour d) "1 hour" " hours"
    else plural (whole (24 * nanos_hour) d) "1 day" " days"

abbrev severity_info : AlertSeverity → String × String × String
severity_info critical = ("🔴", "Critical", "#FF6B6B")
severity_info warning = ("🟡", "Warning", "#FFD93D")
severity_info info = ("🔵", "Info", "#6BCB77")

-- The emoji, the text and the colour of an alert.
unfoldable pub get_status_info : Alert → String × String × String
get_status_info a =
    if is_resolved a
    then ("🟢", "Resolved", "#4ECDC4")
    else if is_acked a
    then ("👀", "Acknowledged", "#A78BFA")
    else severity_info a.severity

abbrev pub code_text : String → String
code_text s = "`" +++ s +++ "`"

unfoldable pub build_compact_info : Alert → Block
build_compact_info a = context_block (
    (("*" +++ (get_status_info a).1 +++ "*") ∷ [])
    ++ (if is_set a.instance_name then code_text a.instance_name ∷ [] else [])
    ++ (if is_set a.target then code_text a.target ∷ [] else []))

unfoldable pub build_timeline_context : Calendar → Alert → Block
build_timeline_context cal a = context_block (
    (format_slack_time cal a.fired_at slack_date_short ∷ [])
    ++ (if is_acked a && is_set a.acked_by then ("by " +++ a.acked_by) ∷ [] else []))

module _ (show_duration : ℤ → String) (durations : List ℤ) where
  unfoldable pub ack_button : String → Element
  ack_button alert_id = button ("ack_" +++ alert_id) alert_id "Acknowledge"

  unfoldable pub silence_select : String → Element
  silence_select alert_id =
      select ("silence_" +++ alert_id) "Silence..."
        (map (λ d. (show_duration d, format_duration d)) durations)

  -- The elements of buildActionButtons.
  unfoldable pub action_elements : String → Bool → Bool → List Element
  action_elements alert_id show_ack show_silence =
      (if show_ack then ack_button alert_id ∷ [] else [])
      ++ (if show_silence then silence_select alert_id ∷ [] else [])

  abbrev action_blocks : String → List Element → List Block
  action_blocks alert_id [] = []
  action_blocks alert_id (e ∷ es) = action_block ("actions_" +++ alert_id) (e ∷ es) ∷ []

  unfoldable pub build_action_buttons : String → Bool → Bool → List Block
  build_action_buttons alert_id show_ack show_silence =
      action_blocks alert_id (action_elements alert_id show_ack show_silence)

  abbrev mention_blocks : List String → List Block
  mention_blocks [] = []
  mention_blocks (id ∷ ids) =
      section_block (":bell: *Alert Subscribers:* " +++ build_user_mentions (id ∷ ids)) ∷ []

  unfoldable pub build_message : Calendar → Alert → Bool → Bool → List String → List Block
  build_message cal a show_ack show_silence ids =
      mention_blocks ids
      ++ (header_block ((get_status_info a).0 +++ "  " +++ a.name) ∷ [])
      ++ (if is_set a.summary then section_block a.summary ∷ [] else [])
      ++ (build_compact_info a ∷ [])
      ++ build_action_buttons a.id show_ack show_silence
      ++ (build_timeline_context cal a ∷ [])

  unfoldable pub build_alert_message : Calendar → Alert → List Block
  build_alert_message cal a = build_message cal a true true []

  unfoldable pub build_alert_message_with_mentions : Calendar → Alert → List String → List Block
  build_alert_message_with_mentions cal a ids = build_message cal a true true ids

  unfoldable pub build_acked_message : Calendar → Alert → List Block
  build_acked_message cal a = build_message cal a false true []

  unfoldable pub build_resolved_message : Calendar → Alert → List Block
  build_resolved_message cal a = build_message cal a false false []
