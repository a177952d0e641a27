-- ===== src/PagerDuty/Event.antt =====
-- The events of internal/infrastructure/pagerduty/client.go, and what they say of an alert. The
-- layouts of a time are arguments: `millis` is Format("2006-01-02T15:04:05.000Z") and `whole` is
-- Format("2006-01-02T15:04:05Z").
use alert_bridge.Base.{ℕ, String, Option, some, List, [], ◌∷◌, ◌++◌, is_set, if◌then◌else◌}
use alert_bridge.Base.Assoc.{Map, insert}
use alert_bridge.Entity.Alert.{
  Alert, AlertSeverity, critical, warning, info, severity_text, alert_state_text, get_label,
}
use alert_bridge.UseCase.Slack.Durations.{◌+++◌}

-- A value of the details: a text, or the labels or annotations.
pub data Detail : Type 0 where
  text : String → Detail
  table : Map String → Detail

-- `details` is none where UpdateMessage leaves the later fields out.
pub record V2Payload : Type 0 where
  pub summary : String
  pub source : String
  pub severity : String
  pub timestamp : String
  pub component : String
  pub group : String
  pub class : String
  pub details : Option (Map Detail)

pub record V2Event : Type 0 where
  pub routing_key : String
  pub action : String
  pub dedup_key : String
  pub payload : Option V2Payload

unfoldable pub build_dedup_key : Alert → String
build_dedup_key a = if is_set a.fingerprint then a.fingerprint else a.id

-- strings.Join(parts, " ")
unfoldable pub join_words : List String → String
join_words [] = ""
join_words (w ∷ []) = w
join_words (w ∷ v ∷ ws) = w +++ " " +++ join_words (v ∷ ws)

abbrev severity_prefix : AlertSeverity → String
severity_prefix critical = "[CRITICAL]"
severity_prefix warning = "[WARNING]"
severity_prefix info = "[INFO]"

unfoldable pub build_summary : Alert → String
unfolding join_words
build_summary a = join_words (
    (severity_prefix a.severity ∷ a.name ∷ [])
    ++ (if is_set a.instance_name then ("on " +++ a.instance_name) ∷ [] else [])
    ++ (if is_set a.summary then "-" ∷ a.summary ∷ [] else []))

abbrev pub put_text : String → String → Map Detail → Map Detail
put_text key value m = if is_set value then insert key (text value) m else m

abbrev pub put_table : String → Map String → Map Detail → Map Detail
put_table key [] m = m
put_table key (v ∷ vs) m = insert key (table (v ∷ vs)) m

unfoldable pub build_details : (ℕ → String) → Alert → Map Detail
build_details whole a = put_table "annotations" a.annotations (
    put_table "labels" a.labels (
      put_text "description" a.description (
        put_text "summary" a.summary (
          ("alert_id", text a.id)
          ∷ ("fingerprint", text a.fingerprint)
          ∷ ("name", text a.name)
          ∷ ("instance", text a.instance_name)
          ∷ ("target", text a.target)
          ∷ ("severity", text (severity_text a.severity))
          ∷ ("state", text (alert_state_text a.state))
          ∷ ("fired_at", text (whole a.fired_at))
          ∷ []))))

unfoldable pub map_severity : String → AlertSeverity → String
map_severity default_severity critical = "critical"
map_severity default_severity warning = "warning"
map_severity default_severity info = default_severity

-- The event that opens an incident.
unfoldable pub trigger_event :
    (millis : ℕ → String) (default_severity routing_key : String) → Map Detail → Alert → V2Event
trigger_event millis default_severity routing_key details a = record {
  routing_key = routing_key;
  action = "trigger";
  dedup_key = build_dedup_key a;
  payload = some (record {
    summary = build_summary a;
    source = a.instance_name;
    severity = map_severity default_severity a.severity;
    timestamp = millis a.fired_at;
    component = a.target;
    group = get_label "job" a;
    class = a.name;
    details = some details;
  });
}
