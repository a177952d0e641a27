-- ===== src/UseCase/Slack/SummarizeAlerts/OverMemory.antt =====
-- The summary over the in-memory repository, whose GetActiveAlerts leaves out what is acknowledged.
use alert_bridge.Base.{
  String, ◌≡◌, refl, ap, ◌∙◌, inl, inr, Bool, true, false, ◌&&◌, Bool-cases, List, [], ◌∷◌, ◌==◌,
  length, count_if, filter, arith,
}
use alert_bridge.Base.Assoc.{values}
use alert_bridge.Base.Int.{ℤ, is_positive, negate, add_duration}
use alert_bridge.Errors.{ok}
use alert_bridge.Entity.Alert.{
  Alert, AlertState, active, acknowledged, resolved, alert_state_text, is_active, is_acked,
  is_active_state, is_acked_state,
}
use alert_bridge.Entity.AlertSummary.{
  AlertSummary, sort_counts, new_alert_summary, acknowledged_count,
}
use alert_bridge.Memory.AlertRepository.{get_active_alerts, severity_passes}
use alert_bridge.UseCase.World.{World}
use alert_bridge.UseCase.MemoryStores.{Stores, memory_alert_store}
use alert_bridge.UseCase.Slack.SummarizeAlerts.{
  has_acker, add_alert, add_alerts, summarize, build_top_acknowledgers, to_user_counts,
  within_period, filter_alerts_by_time, execute,
}
use alert_bridge.UseCase.Slack.SummarizeAlerts.Counts.{summarize-counts}

AllActive : List Alert → Type 0
AllActive [] = Unit
AllActive (a ∷ alerts) = (is_active a ≡ true) × AllActive alerts

state_not_acked :
    (s : AlertState)
    → is_active_state s ≡ true
    → ((alert_state_text s == "acknowledged") ≡ false) × (is_acked_state s ≡ false)
state_not_acked active h = (refl, refl)
state_not_acked acknowledged h = ground arith
state_not_acked resolved h = ground arith

not_acked : (a : Alert) → is_active a ≡ true → (alert_state_text a.state == "acknowledged") ≡ false
unfolding is_active
not_acked a h = (state_not_acked a.state h).0

no_acker : (a : Alert) → is_active a ≡ true → has_acker a ≡ false
unfolding is_active has_acker is_acked
no_acker a h = rw (state_not_acked a.state h).1 refl

AllActive-filter :
    (p : Alert → Bool) (alerts : List Alert) → AllActive alerts → AllActive (filter p alerts)
unfolding AllActive
AllActive-filter p [] h = tt
AllActive-filter p (a ∷ alerts) h = elim (Bool-cases (p a)) [
  | inl e ↦ rw e (h.0, AllActive-filter p alerts h.1)
  | inr e ↦ rw e (AllActive-filter p alerts h.1)
]

active-AllActive :
    (severity : String) (alerts : List Alert)
    → AllActive (filter (λ a. is_active a && severity_passes severity a) alerts)
unfolding AllActive
active-AllActive severity [] = tt
active-AllActive severity (a ∷ alerts) = ground (arith, active-AllActive severity alerts)

none_acked :
    (alerts : List Alert)
    → AllActive alerts
    → count_if (λ a. alert_state_text a.state == "acknowledged") alerts ≡ 0
unfolding AllActive
none_acked [] h = refl
none_acked (a ∷ alerts) h = ground (arith, not_acked a h.0, none_acked alerts h.1)

no_users :
    (alerts : List Alert) (s : AlertSummary) → AllActive alerts → (add_alerts alerts (s, [])).1 ≡ []
unfolding AllActive add_alerts add_alert
no_users [] s h = refl
no_users (a ∷ alerts) s h =
    ap (λ users. (add_alerts alerts ((add_alert a (s, [])).0, users)).1) (unchanged a h.0)
    ∙ no_users alerts (add_alert a (s, [])).0 h.1
  where
    unchanged : (b : Alert) → is_active b ≡ true → (add_alert b (s, [])).1 ≡ []
    unchanged b e = rw (no_acker b e) refl

summarize-active :
    (alerts : List Alert)
    → AllActive alerts
    → (acknowledged_count (summarize alerts) ≡ 0) × ((summarize alerts).top_acknowledgers ≡ [])
unfolding acknowledged_count summarize build_top_acknowledgers to_user_counts sort_counts
summarize-active alerts h = (
  (summarize-counts alerts "acknowledged").1 ∙ none_acked alerts h,
  rw (no_users alerts (record new_alert_summary { total_alerts = length alerts }) h) refl,
)

within_period-AllActive :
    (period : ℤ) (alerts : List Alert) (w : World Stores)
    → AllActive alerts
    → (kept : List Alert) × ((within_period period alerts w).0 ≡ ok kept) × AllActive kept
unfolding within_period filter_alerts_by_time
within_period-AllActive period alerts w h = elim (Bool-cases (is_positive period)) [
  | inl e ↦ rw e (
    filter_alerts_by_time (add_duration (w.supply.clock w.ticks) (negate period)) alerts,
    refl,
    AllActive-filter _ alerts h,
  )
  | inr e ↦ rw e (alerts, refl, h)
]

-- Over the in-memory repository the summary never counts an acknowledged alert and never lists an
-- acknowledger, whatever alerts are stored and whatever the period is.
pub memory_summary :
    (period : ℤ) (w : World Stores)
    → (s : AlertSummary) × ((execute memory_alert_store period w).0 ≡ ok s)
      × (acknowledged_count s ≡ 0)
      × (s.top_acknowledgers ≡ [])
unfolding execute get_active_alerts
memory_summary period w =
    let alerts = get_active_alerts "" w.store.alerts in
    let (kept, e, h) =
      within_period-AllActive period alerts w
        (active-AllActive "" (values w.store.alerts.alerts)) in
    let (none_counted, none_listed) = summarize-active kept h in
    (summarize kept, rw e refl, none_counted, none_listed)
