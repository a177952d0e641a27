-- ===== src/UseCase/Slack/ActiveLabels.antt =====
-- GetActiveAlertLabels of internal/infrastructure/slack/client.go: the labels that the modal offers. A
-- set of values is a map to true.
use alert_bridge.Base.{String, Bool, true, List, [], ◌∷◌, is_set, if◌then◌else◌}
use alert_bridge.Base.Assoc.{Map, insert, get_or}
use alert_bridge.Entity.Alert.{Alert, severity_text}
use alert_bridge.UseCase.World.{Exec, AlertStore, pure, ◌>>=◌}

-- labels[key][value] = true, where the set is made first if there is none
unfoldable pub add_value : String → String → Map (Map Bool) → Map (Map Bool)
unfolding insert get_or
add_value key value labels = insert key (insert value true (get_or [] key labels)) labels

unfoldable pub add_values : Map String → Map (Map Bool) → Map (Map Bool)
unfolding add_value
add_values [] labels = labels
add_values ((key, value) ∷ m) labels = add_values m (add_value key value labels)

abbrev add_field : String → String → Map (Map Bool) → Map (Map Bool)
add_field key value labels = if is_set value then add_value key value labels else labels

unfoldable pub collect_labels : List Alert → Map (Map Bool) → Map (Map Bool)
unfolding add_values
collect_labels [] labels = labels
collect_labels (a ∷ alerts) labels = collect_labels alerts (
    add_field "severity" (severity_text a.severity) (
      add_field "instance" a.instance_name
        (add_field "alertname" a.name (add_values a.labels labels))))

abbrev keys : Map Bool → List String
keys [] = []
keys ((value, _) ∷ m) = value ∷ keys m

-- A key whose set is empty has no entry; there is none.
unfoldable pub to_slices : Map (Map Bool) → Map (List String)
to_slices [] = []
to_slices ((key, values) ∷ m) = (key, keys values) ∷ to_slices m

unfoldable pub get_active_alert_labels : {S : Type 0} → AlertStore S → Exec S (Map (List String))
unfolding collect_labels to_slices
get_active_alert_labels alert_repo = do
  alerts ← alert_repo.get_active_alerts ""
  pure (to_slices (collect_labels alerts []))
