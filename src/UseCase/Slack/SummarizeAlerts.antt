-- ===== src/UseCase/Slack/SummarizeAlerts.antt =====
-- internal/usecase/slack/summarize_alerts.go. The counts of the users are a map, listed in the order
-- in which it is ranged over, which is any.
pub mod Counts
pub mod Top
pub mod OverMemory
use alert_bridge.Base.{
  ℕ, suc, ◌+◌, String, Bool, not, ◌&&◌, Option, List, [], ◌∷◌, is_set, if◌then◌else◌, ltb, take,
  filter, length,
}
use alert_bridge.Base.Assoc.{Map, insert, get_or}
use alert_bridge.Base.Int.{ℤ, is_positive, negate, add_duration}
use alert_bridge.Entity.Alert.{Alert, severity_text, alert_state_text, is_acked}
use alert_bridge.Entity.AlertSummary.{AlertSummary, UserAckCount, new_alert_summary, sort_counts}
use alert_bridge.UseCase.World.{Exec, AlertStore, pure, wrapping, now, ◌>>=◌}

-- m[key]++
unfoldable pub increment : String → Map ℕ → Map ℕ
unfolding get_or insert
increment key m = insert key (get_or 0 key m + 1) m

-- Whether the alert counts for a user.
unfoldable pub has_acker : Alert → Bool
unfolding is_acked
has_acker a = is_acked a && is_set a.acked_by

-- The body of the loop, on the summary and the counts of the users.
unfoldable pub add_alert : Alert → AlertSummary × Map ℕ → AlertSummary × Map ℕ
unfolding increment has_acker
add_alert a (s, users) = (
  record s {
    alerts_by_severity = increment (severity_text a.severity) s.alerts_by_severity;
    alerts_by_state = increment (alert_state_text a.state) s.alerts_by_state;
    alerts_by_instance =
        if is_set a.instance_name
        then increment a.instance_name s.alerts_by_instance
        else s.alerts_by_instance;
  },
  if has_acker a then increment a.acked_by users else users,
)

unfoldable pub add_alerts : List Alert → AlertSummary × Map ℕ → AlertSummary × Map ℕ
unfolding add_alert
add_alerts [] acc = acc
add_alerts (a ∷ alerts) acc = add_alerts alerts (add_alert a acc)

unfoldable pub filter_alerts_by_time : ℕ → List Alert → List Alert
filter_alerts_by_time cutoff alerts = filter (λ a. not (ltb a.fired_at cutoff)) alerts

unfoldable pub to_user_counts : Map ℕ → List UserAckCount
to_user_counts [] = []
to_user_counts ((user, count) ∷ m) =
    record { user_name = user; user_email = ""; count = count } ∷ to_user_counts m

unfoldable pub build_top_acknowledgers : Map ℕ → List UserAckCount
unfolding to_user_counts sort_counts
build_top_acknowledgers counts = take 5 (sort_counts (to_user_counts counts))

-- The part of Execute behind the filter.
unfoldable pub summarize : List Alert → AlertSummary
unfolding new_alert_summary add_alerts build_top_acknowledgers
summarize alerts =
    let (s, users) =
      add_alerts alerts (record new_alert_summary { total_alerts = length alerts }, []) in
    record s { top_acknowledgers = build_top_acknowledgers users }

module _ {S : Type 0} where
  unfoldable pub within_period : ℤ → List Alert → Exec S (List Alert)
  unfolding is_positive negate add_duration filter_alerts_by_time
  within_period period alerts =
      let recent = (do
        at ← now
        pure (filter_alerts_by_time (add_duration at (negate period)) alerts)) in
      if is_positive period then recent else pure alerts

  unfoldable pub execute : AlertStore S → ℤ → Exec S AlertSummary
  unfolding within_period summarize
  execute alert_repo period = do
    alerts ← wrapping "failed to get active alerts" (alert_repo.get_active_alerts "")
    kept ← within_period period alerts
    pure (summarize kept)
