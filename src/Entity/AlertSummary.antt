-- ===== src/Entity/AlertSummary.antt =====
-- internal/domain/entity/alert_summary.go. A Go map from severities, states or instances to counts is
-- keyed by their text. sort.Slice, with which the callers order the counts of users, leaves the order
-- of equal elements open; the model keeps them as they came.
pub mod Ranking
use alert_bridge.Base.{ℕ, String, List, [], ◌∷◌, if◌then◌else◌, ltb}
use alert_bridge.Base.Assoc.{Map, get_or}

pub record UserAckCount : Type 0 where
  pub user_name : String
  pub user_email : String
  pub count : ℕ

pub record AlertSummary : Type 0 where
  pub total_alerts : ℕ
  pub alerts_by_severity : Map ℕ
  pub alerts_by_state : Map ℕ
  pub alerts_by_instance : Map ℕ
  pub top_acknowledgers : List UserAckCount

unfoldable pub new_alert_summary : AlertSummary
new_alert_summary = record {
  total_alerts = 0;
  alerts_by_severity = [];
  alerts_by_state = [];
  alerts_by_instance = [];
  top_acknowledgers = [];
}

-- The loop of TopInstance, from the best so far.
unfoldable pub top_of : String → ℕ → Map ℕ → String × ℕ
top_of top most [] = (top, most)
top_of top most ((name, count) ∷ m) =
    if ltb most count then top_of name count m else top_of top most m

unfoldable pub top_instance : AlertSummary → String
unfolding top_of
top_instance s = (top_of "" 0 s.alerts_by_instance).0

unfoldable pub top_instance_count : AlertSummary → ℕ
unfolding top_of
top_instance_count s = (top_of "" 0 s.alerts_by_instance).1

unfoldable pub top_acknowledger : AlertSummary → UserAckCount
top_acknowledger s = elim s.top_acknowledgers [
  | [] ↦ record { user_name = ""; user_email = ""; count = 0 }
  | c ∷ cs ↦ c
]

unfoldable pub critical_count : AlertSummary → ℕ
critical_count s = get_or 0 "critical" s.alerts_by_severity

unfoldable pub warning_count : AlertSummary → ℕ
warning_count s = get_or 0 "warning" s.alerts_by_severity

unfoldable pub info_count : AlertSummary → ℕ
info_count s = get_or 0 "info" s.alerts_by_severity

unfoldable pub active_count : AlertSummary → ℕ
active_count s = get_or 0 "active" s.alerts_by_state

unfoldable pub acknowledged_count : AlertSummary → ℕ
acknowledged_count s = get_or 0 "acknowledged" s.alerts_by_state

unfoldable pub insert_count : UserAckCount → List UserAckCount → List UserAckCount
insert_count c [] = c ∷ []
insert_count c (d ∷ ds) = if ltb c.count d.count then d ∷ insert_count c ds else c ∷ d ∷ ds

-- The larger counts first.
unfoldable pub sort_counts : List UserAckCount → List UserAckCount
unfolding insert_count
sort_counts [] = []
sort_counts (c ∷ cs) = insert_count c (sort_counts cs)
