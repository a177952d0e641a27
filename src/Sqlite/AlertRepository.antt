-- ===== src/Sqlite/AlertRepository.antt =====
-- internal/infrastructure/persistence/sqlite/alert_repository.go. A severity and a state are texts in
-- the row as in Go; the model keeps the constructors. A row that is scanned gives an alert whose map
-- of references is a new one on the heap.
pub mod Contents
pub mod Refinement
pub mod References
use alert_bridge.Base.{
  ℕ, String, Bool, true, false, not, ◌&&◌, ◌||◌, Option, none, some, List, [], ◌∷◌, ◌++◌, ◌==◌, leb,
  is_set, if◌then◌else◌, filter,
}
use alert_bridge.Base.Assoc.{Map}
use alert_bridge.Base.Heap.{Heap, make, write}
use alert_bridge.Errors.{Result, ok, err, sentinel, duplicate_alert, alert_not_found}
use alert_bridge.Entity.Alert.{
  Alert, AlertSeverity, AlertState, active, acknowledged, resolved, severity_text,
}
use alert_bridge.Sql.Json.{JsonCodec}
use alert_bridge.Sql.Tables.{row_of, delete_rows, update_rows}
use alert_bridge.Sqlite.Columns.{
  null_string, string_from_null, time_to_string, parse_time, null_time, scan_null_time,
  marshal_json, unmarshal_json,
}

pub record AlertRow (Text : Type 0) : Type 0 where
  pub id : String
  pub fingerprint : String
  pub name : String
  pub instance_name : String
  pub target : String
  pub summary : String
  pub description : String
  pub severity : AlertSeverity
  pub state : AlertState
  pub labels : Text
  pub annotations : Text
  pub external_references : Text
  pub fired_at : ℕ
  pub acked_at : Option ℕ
  pub acked_by : Option String
  pub resolved_at : Option ℕ
  pub created_at : ℕ
  pub updated_at : ℕ

abbrev pub row_id : {T : Type 0} → AlertRow T → String
row_id r = r.id

abbrev pub is_resolved_row : {T : Type 0} → AlertRow T → Bool
is_resolved_row r = elim r.state [ resolved ↦ true | _ ↦ false ]

-- state IN ('active', 'acknowledged')
abbrev pub is_firing_row : {T : Type 0} → AlertRow T → Bool
is_firing_row r = elim r.state [ active ↦ true | acknowledged ↦ true | resolved ↦ false ]

module _ (c : JsonCodec) where
  open c use {Text, encode, extract}

  -- The arguments of the INSERT; a label map is a value, and nil is written as the empty map.
  unfoldable pub to_row : Heap → Alert → AlertRow Text
  unfolding null_string time_to_string null_time marshal_json
  to_row h a = record {
    id = a.id;
    fingerprint = a.fingerprint;
    name = a.name;
    instance_name = a.instance_name;
    target = a.target;
    summary = a.summary;
    description = a.description;
    severity = a.severity;
    state = a.state;
    labels = encode a.labels;
    annotations = encode a.annotations;
    external_references = marshal_json c h a.external_references;
    fired_at = time_to_string a.fired_at;
    acked_at = null_time a.acked_at;
    acked_by = null_string a.acked_by;
    resolved_at = null_time a.resolved_at;
    created_at = time_to_string a.created_at;
    updated_at = time_to_string a.updated_at;
  }

  -- The columns as an alert with no map yet, and the map of references.
  unfoldable pub load : AlertRow Text → Alert × Map String
  unfolding string_from_null parse_time scan_null_time unmarshal_json
  load r = (
    record {
      id = r.id;
      fingerprint = r.fingerprint;
      name = r.name;
      instance_name = r.instance_name;
      target = r.target;
      summary = r.summary;
      description = r.description;
      severity = r.severity;
      state = r.state;
      labels = unmarshal_json c r.labels;
      annotations = unmarshal_json c r.annotations;
      external_references = none;
      fired_at = parse_time r.fired_at;
      acked_at = scan_null_time r.acked_at;
      acked_by = string_from_null r.acked_by;
      resolved_at = scan_null_time r.resolved_at;
      created_at = parse_time r.created_at;
      updated_at = parse_time r.updated_at;
    },
    unmarshal_json c r.external_references,
  )

  unfoldable pub scan_alert : AlertRow Text → Heap → Alert × Heap
  unfolding load make write
  scan_alert r h =
      let (refs, h') = make h in
      (record (load r).0 { external_references = some refs }, write refs (load r).1 h')

  unfoldable pub scan_row : Option (AlertRow Text) → Heap → Option Alert × Heap
  unfolding scan_alert
  scan_row none h = (none, h)
  scan_row (some r) h = let (a, h') = scan_alert r h in (some a, h')

  unfoldable pub scan_alerts : List (AlertRow Text) → Heap → List Alert × Heap
  unfolding scan_alert
  scan_alerts [] h = ([], h)
  scan_alerts (r ∷ rs) h =
      let (a, h') = scan_alert r h in let (rest, h'') = scan_alerts rs h' in (a ∷ rest, h'')

  unfoldable pub save : Heap → Alert → List (AlertRow Text) → Result (List (AlertRow Text))
  unfolding to_row row_of
  save h a t = elim (row_of row_id a.id t) [
    | some _ ↦ err (sentinel duplicate_alert)
    | none ↦ ok (t ++ to_row h a ∷ [])
  ]

  unfoldable pub find_by_id : String → List (AlertRow Text) → Heap → Option Alert × Heap
  unfolding row_of scan_row
  find_by_id id t h = scan_row (row_of row_id id t) h

  unfoldable pub find_by_fingerprint : String → List (AlertRow Text) → Heap → List Alert × Heap
  unfolding scan_alerts
  find_by_fingerprint fp t h = scan_alerts (filter (λ r. r.fingerprint == fp) t) h

  -- json_extract(external_references, '$.' || system) = reference; NULL equals nothing
  abbrev extracted_is : Option String → String → Bool
  extracted_is none reference = false
  extracted_is (some s) reference = s == reference

  unfoldable pub has_reference : String → String → AlertRow Text → Bool
  has_reference system reference r = extracted_is (extract r.external_references system) reference

  unfoldable pub first_row : (AlertRow Text → Bool) → List (AlertRow Text) → Option (AlertRow Text)
  first_row p [] = none
  first_row p (r ∷ rs) = if p r then some r else first_row p rs

  unfoldable pub find_by_external_reference :
      String → String → List (AlertRow Text) → Heap → Option Alert × Heap
  unfolding first_row has_reference scan_row
  find_by_external_reference system reference t h =
      scan_row (first_row (has_reference system reference) t) h

  -- The SET clause leaves the id and the time of creation.
  unfoldable pub set_columns : Heap → Alert → AlertRow Text → AlertRow Text
  unfolding to_row
  set_columns h a r = record (to_row h a) { id = r.id; created_at = r.created_at }

  -- No affected row means that there is none of that id.
  unfoldable pub update : Heap → Alert → List (AlertRow Text) → Result (List (AlertRow Text))
  unfolding set_columns row_of update_rows
  update h a t = elim (row_of row_id a.id t) [
    | none ↦ err (sentinel alert_not_found)
    | some _ ↦ ok (update_rows row_id a.id (set_columns h a) t)
  ]

  unfoldable pub find_active : List (AlertRow Text) → Heap → List Alert × Heap
  unfolding scan_alerts
  find_active t h = scan_alerts (filter (λ r. not (is_resolved_row r)) t) h

  unfoldable pub find_firing : List (AlertRow Text) → Heap → List Alert × Heap
  unfolding scan_alerts
  find_firing t h = scan_alerts (filter is_firing_row t) h

  -- ORDER BY fired_at DESC; rows of one time stay in their order, which the database leaves open
  unfoldable pub insert_by_fired_at : AlertRow Text → List (AlertRow Text) → List (AlertRow Text)
  insert_by_fired_at r [] = r ∷ []
  insert_by_fired_at r (q ∷ qs) =
      if leb q.fired_at r.fired_at then r ∷ q ∷ qs else q ∷ insert_by_fired_at r qs

  unfoldable pub order_by_fired_at : List (AlertRow Text) → List (AlertRow Text)
  unfolding insert_by_fired_at
  order_by_fired_at [] = []
  order_by_fired_at (r ∷ rs) = insert_by_fired_at r (order_by_fired_at rs)

  unfoldable pub get_active_alerts : String → List (AlertRow Text) → Heap → List Alert × Heap
  unfolding scan_alerts order_by_fired_at
  get_active_alerts severity t h =
      scan_alerts
        (order_by_fired_at (
          filter
            (λ r.
              not (is_resolved_row r)
              && (not (is_set severity) || (severity_text r.severity == severity)))
            t))
        h

  unfoldable pub delete_alert : String → List (AlertRow Text) → Result (List (AlertRow Text))
  unfolding row_of delete_rows
  delete_alert id t = elim (row_of row_id id t) [
    | none ↦ err (sentinel alert_not_found)
    | some _ ↦ ok (delete_rows row_id id t)
  ]
