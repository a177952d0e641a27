-- ===== src/UseCase/Slack/SummarizeAlerts/Counts.antt =====
-- What the counters of a summary count.
use alert_bridge.Base.{
  ℕ, ◌+◌, String, ◌≡◌, refl, Bool, ◌&&◌, List, [], ◌∷◌, ◌==◌, is_set, if◌then◌else◌, length,
  count_if, arith, eq_iff,
}
use alert_bridge.Base.Assoc.{Map, get_or, lookup, get_or-insert}
use alert_bridge.Entity.Alert.{
  Alert, AlertSeverity, critical, warning, info, severity_text, alert_state_text,
}
use alert_bridge.Entity.AlertSummary.{
  AlertSummary, new_alert_summary, critical_count, warning_count, info_count,
}
use alert_bridge.UseCase.Slack.SummarizeAlerts.{
  increment, has_acker, add_alert, add_alerts, summarize,
}

pub get_or-increment :
    (key k : String) (m : Map ℕ)
    → get_or 0 k (increment key m) ≡ (if key == k then 1 else 0) + get_or 0 k m
unfolding increment
get_or-increment key k m =
    ground (arith, get_or-insert 0 key k (get_or 0 key m + 1) m, eq_iff key k)

-- The alerts that a counter takes in, each under its key.
abbrev counted : (Alert → Bool) → (Alert → String) → String → Alert → Bool
counted p f k a = p a && (f a == k)

abbrev step : (Alert → Bool) → (Alert → String) → Alert → Map ℕ → Map ℕ
step p f a m = if p a then increment (f a) m else m

get_or-step :
    (p : Alert → Bool) (f : Alert → String) (k : String) (a : Alert) (m : Map ℕ)
    → get_or 0 k (step p f a m) ≡ (if counted p f k a then 1 else 0) + get_or 0 k m
get_or-step p f k a m = ground (arith, get_or-increment (f a) k m)

module _ (k : String) where
  add_alerts-severity :
      (alerts : List Alert) (s : AlertSummary) (users : Map ℕ)
      → get_or 0 k (add_alerts alerts (s, users)).0.alerts_by_severity
        ≡ count_if (λ a. severity_text a.severity == k) alerts + get_or 0 k s.alerts_by_severity
  unfolding add_alerts add_alert
  add_alerts-severity [] s users = omega arith
  add_alerts-severity (a ∷ alerts) s users = omega (
    arith,
    add_alerts-severity alerts (add_alert a (s, users)).0 (add_alert a (s, users)).1,
    get_or-increment (severity_text a.severity) k s.alerts_by_severity,
  )

  add_alerts-state :
      (alerts : List Alert) (s : AlertSummary) (users : Map ℕ)
      → get_or 0 k (add_alerts alerts (s, users)).0.alerts_by_state
        ≡ count_if (λ a. alert_state_text a.state == k) alerts + get_or 0 k s.alerts_by_state
  unfolding add_alerts add_alert
  add_alerts-state [] s users = omega arith
  add_alerts-state (a ∷ alerts) s users = omega (
    arith,
    add_alerts-state alerts (add_alert a (s, users)).0 (add_alert a (s, users)).1,
    get_or-increment (alert_state_text a.state) k s.alerts_by_state,
  )

  add_alerts-instance :
      (alerts : List Alert) (s : AlertSummary) (users : Map ℕ)
      → get_or 0 k (add_alerts alerts (s, users)).0.alerts_by_instance
        ≡ count_if (counted (λ a. is_set a.instance_name) (λ a. a.instance_name) k) alerts
          + get_or 0 k s.alerts_by_instance
  unfolding add_alerts add_alert
  add_alerts-instance [] s users = omega arith
  add_alerts-instance (a ∷ alerts) s users = omega (
    arith,
    add_alerts-instance alerts (add_alert a (s, users)).0 (add_alert a (s, users)).1,
    get_or-step (λ b. is_set b.instance_name) (λ b. b.instance_name) k a s.alerts_by_instance,
  )

  pub add_alerts-users :
      (alerts : List Alert) (s : AlertSummary) (users : Map ℕ)
      → get_or 0 k (add_alerts alerts (s, users)).1
        ≡ count_if (λ a. has_acker a && (a.acked_by == k)) alerts + get_or 0 k users
  unfolding add_alerts add_alert
  add_alerts-users [] s users = omega arith
  add_alerts-users (a ∷ alerts) s users = omega (
    arith,
    add_alerts-users alerts (add_alert a (s, users)).0 (add_alert a (s, users)).1,
    get_or-step has_acker (λ b. b.acked_by) k a users,
  )

abbrev has_severity : String → Alert → Bool
has_severity text a = severity_text a.severity == text

one_severity :
    (s : AlertSeverity)
    → (if severity_text s == "critical" then 1 else 0)
        + (if severity_text s == "warning" then 1 else 0)
        + (if severity_text s == "info" then 1 else 0)
      ≡ 1
one_severity critical = refl
one_severity warning = refl
one_severity info = refl

severity_split :
    (alerts : List Alert)
    → count_if (has_severity "critical") alerts
        + count_if (has_severity "warning") alerts
        + count_if (has_severity "info") alerts
      ≡ length alerts
severity_split [] = omega arith
severity_split (a ∷ alerts) = omega (arith, one_severity a.severity, severity_split alerts)

add_alerts-total :
    (alerts : List Alert) (s : AlertSummary) (users : Map ℕ)
    → (add_alerts alerts (s, users)).0.total_alerts ≡ s.total_alerts
unfolding add_alerts add_alert
add_alerts-total [] s users = refl
add_alerts-total (a ∷ alerts) s users =
    add_alerts-total alerts (add_alert a (s, users)).0 (add_alert a (s, users)).1

abbrev start : ℕ → AlertSummary
start n = record new_alert_summary { total_alerts = n }

summarize-severity :
    (alerts : List Alert) (k : String)
    → get_or 0 k (summarize alerts).alerts_by_severity ≡ count_if (has_severity k) alerts
unfolding summarize get_or lookup new_alert_summary
summarize-severity alerts k = omega (arith, add_alerts-severity k alerts (start (length alerts)) [])

-- For every list of alerts, each of the maps of the summary gives under each key the number of the
-- alerts of that severity, of that state, and of that instance, where alerts that name no instance
-- are left out; the total is the number of the alerts, and the three severities add up to it.
pub summarize-counts :
    (alerts : List Alert) (k : String)
    → (get_or 0 k (summarize alerts).alerts_by_severity
        ≡ count_if (λ a. severity_text a.severity == k) alerts)
      × (get_or 0 k (summarize alerts).alerts_by_state
          ≡ count_if (λ a. alert_state_text a.state == k) alerts)
      × (get_or 0 k (summarize alerts).alerts_by_instance
          ≡ count_if (λ a. is_set a.instance_name && (a.instance_name == k)) alerts)
      × ((summarize alerts).total_alerts ≡ length alerts)
      × (critical_count (summarize alerts)
            + warning_count (summarize alerts)
            + info_count (summarize alerts)
          ≡ length alerts)
unfolding summarize critical_count warning_count info_count get_or lookup new_alert_summary
summarize-counts alerts k = (
  summarize-severity alerts k,
  omega (arith, add_alerts-state k alerts (start (length alerts)) []),
  omega (arith, add_alerts-instance k alerts (start (length alerts)) []),
  add_alerts-total alerts (start (length alerts)) [],
  omega (
    arith,
    severity_split alerts,
    summarize-severity alerts "critical",
    summarize-severity alerts "warning",
    summarize-severity alerts "info",
  ),
)
