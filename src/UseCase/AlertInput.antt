-- ===== src/UseCase/AlertInput.antt =====
-- internal/adapter/dto/alertmanager.go: what a webhook of Alertmanager says about one alert.
use alert_bridge.Base.{ℕ, String, Bool, false, List, [], ◌==◌, if◌then◌else◌}
use alert_bridge.Base.Assoc.{Map, get_or}
use alert_bridge.Errors.{Error}
use alert_bridge.Entity.Alert.{AlertSeverity, critical, warning, info}

pub record AlertmanagerAlert : Type 0 where
  pub status : String
  pub labels : Map String
  pub annotations : Map String
  pub starts_at : ℕ
  pub ends_at : ℕ
  pub generator_url : String
  pub fingerprint : String

pub record ProcessAlertInput : Type 0 where
  pub fingerprint : String
  pub name : String
  pub instance_name : String
  pub target : String
  pub summary : String
  pub description : String
  pub severity : AlertSeverity
  pub status : String
  pub labels : Map String
  pub annotations : Map String
  pub fired_at : ℕ

unfoldable pub map_severity : String → AlertSeverity
map_severity s =
    if s == "critical"
    then critical
    else if s == "page"
    then critical
    else if s == "warning"
    then warning
    else if s == "warn"
    then warning
    else info

unfoldable pub to_process_alert_input : AlertmanagerAlert → ProcessAlertInput
unfolding map_severity get_or
to_process_alert_input a = record {
  fingerprint = a.fingerprint;
  name = get_or "" "alertname" a.labels;
  instance_name = get_or "" "instance" a.labels;
  target = get_or "" "job" a.labels;
  summary = get_or "" "summary" a.annotations;
  description = get_or "" "description" a.annotations;
  severity = map_severity (get_or "" "severity" a.labels);
  status = a.status;
  labels = a.labels;
  annotations = a.annotations;
  fired_at = a.starts_at;
}

pub record ProcessAlertOutput : Type 0 where
  pub alert_id : String
  pub is_new : Bool
  pub is_silenced : Bool
  pub notifications_sent : List String
  pub notifications_failed : List (String × Error)

abbrev pub empty_output : ProcessAlertOutput
empty_output = record {
  alert_id = "";
  is_new = false;
  is_silenced = false;
  notifications_sent = [];
  notifications_failed = [];
}
