-- ===== src/Presenter/SummaryFormatter.antt =====
-- FormatAlertSummary and formatTopInstances of internal/adapter/presenter/slack_alert_formatter.go. The
-- map of the instances is listed in the order in which it is ranged over, which is any.
pub mod Sorting
use alert_bridge.Base.{
  ℕ, zero, suc, String, Bool, not, ◌&&◌, List, [], ◌∷◌, ◌++◌, ◌==◌, is_set, if◌then◌else◌, ltb,
  length, take,
}
use alert_bridge.Base.Assoc.{Map}
use alert_bridge.Base.Text.{itoa}
use alert_bridge.UseCase.Slack.Durations.{◌+++◌}
use alert_bridge.Entity.AlertSummary.{
  AlertSummary, UserAckCount, top_instance, top_instance_count, critical_count, warning_count,
  info_count, active_count, acknowledged_count,
}
use alert_bridge.Presenter.Blocks.{Block, Calendar, header_block, section_block, divider}
use alert_bridge.Presenter.AlertFormatter.{footer}

abbrev pub InstanceCount : Type 0
InstanceCount = String × ℕ

-- The inner loop: the element at index i is exchanged with each later one that has a larger count.
unfoldable pub exchange : InstanceCount → List InstanceCount → InstanceCount × List InstanceCount
exchange x [] = (x, [])
exchange x (y ∷ ys) =
    let (up, kept) = exchange y ys in
    let (up', kept') = exchange x ys in if ltb x.1 y.1 then (up, x ∷ kept) else (up', y ∷ kept')

-- The outer loop; the fuel is the number of elements that are left.
unfoldable pub sort_instances_from : ℕ → List InstanceCount → List InstanceCount
sort_instances_from zero xs = xs
sort_instances_from (suc n) [] = []
sort_instances_from (suc n) (x ∷ xs) =
    let (top, rest) = exchange x xs in top ∷ sort_instances_from n rest

unfoldable pub sort_instances : List InstanceCount → List InstanceCount
sort_instances xs = sort_instances_from (length xs) xs

-- The lines of the instances, from this index.
unfoldable pub instance_lines : ℕ → List InstanceCount → String
instance_lines i [] = ""
instance_lines i ((name, count) ∷ xs) =
    itoa (suc i)
    +++ ". `"
    +++ name
    +++ "`: "
    +++ itoa count
    +++ " alert(s)\n"
    +++ instance_lines (suc i) xs

unfoldable pub format_top_instances : Map ℕ → ℕ → String
format_top_instances instances limit = instance_lines 0 (take limit (sort_instances instances))

unfoldable pub acknowledger_lines : ℕ → List UserAckCount → String
acknowledger_lines i [] = ""
acknowledger_lines i (c ∷ cs) =
    itoa (suc i)
    +++ ". "
    +++ c.user_name
    +++ ": "
    +++ itoa c.count
    +++ " acknowledgment(s)\n"
    +++ acknowledger_lines (suc i) cs

abbrev acknowledgers_text : List UserAckCount → String
acknowledgers_text [] = "*Top Acknowledgers:*\n_No acknowledgments recorded_"
acknowledgers_text (c ∷ cs) = "*Top Acknowledgers:*\n" +++ acknowledger_lines 0 (c ∷ cs)

abbrev top_instances_blocks : Map ℕ → List Block
top_instances_blocks [] = []
top_instances_blocks (c ∷ cs) =
    if is_set (format_top_instances (c ∷ cs) 5)
    then section_block ("*Top Instances:*\n" +++ format_top_instances (c ∷ cs) 5) ∷ []
    else []

unfoldable pub format_alert_summary : Calendar → ℕ → AlertSummary → String → List Block
format_alert_summary cal now s period_desc =
    (header_block (
        if is_set period_desc && not (period_desc == "all time")
        then "Alert Summary - " +++ period_desc
        else "Alert Summary Dashboard")
      ∷ section_block (
          "*Total Alerts:* "
          +++ itoa s.total_alerts
          +++ (if is_set period_desc then " (" +++ period_desc +++ ")" else ""))
      ∷ divider
      ∷ section_block (
          "*Alerts by Severity:*\n"
          +++ "🔴 Critical: "
          +++ itoa (critical_count s)
          +++ "\n🟡 Warning: "
          +++ itoa (warning_count s)
          +++ "\n🔵 Info: "
          +++ itoa (info_count s))
      ∷ section_block (
          "*Alerts by State:*\nActive: "
          +++ itoa (active_count s)
          +++ "\nAcknowledged: "
          +++ itoa (acknowledged_count s))
      ∷ divider
      ∷ [])
    ++ (if is_set (top_instance s)
        then section_block (
            "*Instance with Most Alerts:*\n`"
            +++ top_instance s
            +++ "` with "
            +++ itoa (top_instance_count s)
            +++ " alert(s)")
          ∷ []
        else [])
    ++ top_instances_blocks s.alerts_by_instance
    ++ (divider ∷ section_block (acknowledgers_text s.top_acknowledgers) ∷ [])
    ++ (footer cal "Summary generated: " now ∷ [])
