-- ===== src/UseCase/Slack/QueryAlertStatus.antt =====
-- internal/usecase/slack/query_alert_status.go
use alert_bridge.Base.{String, ◌||◌, List, ◌==◌, if◌then◌else◌}
use alert_bridge.Base.Text.{to_lower, trim_space}
use alert_bridge.Entity.Alert.{Alert}
use alert_bridge.UseCase.World.{Exec, AlertStore, wrapping}

unfoldable pub parse_severity : String → String
unfolding to_lower trim_space
parse_severity severity =
    let normalized = to_lower (trim_space severity) in
    if (normalized == "critical") || (normalized == "crit")
    then "critical"
    else if (normalized == "warning") || (normalized == "warn")
    then "warning"
    else if (normalized == "info") || (normalized == "information")
    then "info"
    else ""

unfoldable pub execute : {S : Type 0} → AlertStore S → String → Exec S (List Alert)
unfolding parse_severity
execute alert_repo severity =
    wrapping "failed to get active alerts" (alert_repo.get_active_alerts (parse_severity severity))
