-- ===== src/Mysql/AlertRepository/Reads.antt =====
-- The statements of internal/infrastructure/persistence/mysql/alert_repository.go that read, and the
-- scanning of their rows. A scanned alert has a new map of references on the heap.
use alert_bridge.Base.{
  ℕ, String, Bool, true, false, not, ◌&&◌, ◌||◌, Option, none, some, List, [], ◌∷◌, ◌==◌, leb,
  is_set, if◌then◌else◌, filter,
}
use alert_bridge.Base.Assoc.{Map}
use alert_bridge.Base.Heap.{Heap, make, write}
use alert_bridge.Errors.{Result, ok, err, wrapped}
use alert_bridge.Entity.Alert.{Alert, active, acknowledged, resolved, severity_text}
use alert_bridge.Sql.Json.{JsonCodec}
use alert_bridge.Sql.Tables.{row_of}
use alert_bridge.Mysql.Columns.{string_value, unmarshal_map}
use alert_bridge.Mysql.AlertRepository.{AlertRow, Tables, row_id}

abbrev pub is_resolved_row : {T : Type 0} → AlertRow T → Bool
is_resolved_row r = elim r.state [ resolved ↦ true | _ ↦ false ]

abbrev pub is_firing_row : {T : Type 0} → AlertRow T → Bool
is_firing_row r = elim r.state [ active ↦ true | acknowledged ↦ true | resolved ↦ false ]

-- ORDER BY column DESC; rows of one time stay in their order, which the database leaves open
module _ {T : Type 0} (column : AlertRow T → ℕ) where
  unfoldable pub insert_by : AlertRow T → List (AlertRow T) → List (AlertRow T)
  insert_by r [] = r ∷ []
  insert_by r (q ∷ qs) = if leb (column q) (column r) then r ∷ q ∷ qs else q ∷ insert_by r qs

  unfoldable pub order_by : List (AlertRow T) → List (AlertRow T)
  unfolding insert_by
  order_by [] = []
  order_by (r ∷ rs) = insert_by r (order_by rs)

module _ (c : JsonCodec) where
  open c use {Text, extract}

  abbrev with_maps :
      AlertRow Text
      → Result (Map String)
      → Result (Map String)
      → Result (Map String)
      → Heap
      → Result Alert × Heap
  with_maps r (ok labels) (ok annotations) (ok references) h =
      let (refs, h') = make h in
      (
        ok (record {
          id = r.id;
          fingerprint = r.fingerprint;
          name = r.name;
          instance_name = r.instance_name;
          target = r.target;
          summary = r.summary;
          description = r.description;
          severity = r.severity;
          state = r.state;
          labels = labels;
          annotations = annotations;
          external_references = some refs;
          fired_at = r.fired_at;
          acked_at = r.acked_at;
          acked_by = string_value r.acked_by;
          resolved_at = r.resolved_at;
          created_at = r.created_at;
          updated_at = r.updated_at;
        }),
        write refs references h',
      )
  with_maps r (ok labels) (ok annotations) (err e) h =
      (err (wrapped "unmarshaling external_references" e), h)
  with_maps r (ok labels) (err e) references h = (err (wrapped "unmarshaling annotations" e), h)
  with_maps r (err e) annotations references h = (err (wrapped "unmarshaling labels" e), h)

  unfoldable pub scan_alert : AlertRow Text → Heap → Result Alert × Heap
  unfolding make write unmarshal_map string_value
  scan_alert r h =
      with_maps r (unmarshal_map c r.labels) (unmarshal_map c r.annotations)
        (unmarshal_map c r.external_references) h

  abbrev found_one : Result Alert × Heap → Result (Option Alert) × Heap
  found_one (ok a, h) = (ok (some a), h)
  found_one (err e, h) = (err e, h)

  unfoldable pub scan_row : Option (AlertRow Text) → Heap → Result (Option Alert) × Heap
  unfolding scan_alert
  scan_row none h = (ok none, h)
  scan_row (some r) h = found_one (scan_alert r h)

  abbrev cons_alert : Result Alert → Result (List Alert) → Result (List Alert)
  cons_alert (ok a) (ok rest) = ok (a ∷ rest)
  cons_alert (ok a) (err e) = err e
  cons_alert (err e) rest = err e

  -- The first row that cannot be read ends the scan; what later rows would allocate is not seen.
  unfoldable pub scan_alerts : List (AlertRow Text) → Heap → Result (List Alert) × Heap
  unfolding scan_alert
  scan_alerts [] h = (ok [], h)
  scan_alerts (r ∷ rs) h =
      let (a, h') = scan_alert r h in
      let (rest, h'') = scan_alerts rs h' in (cons_alert a rest, h'')

  unfoldable pub find_by_id : String → Tables Text → Heap → Result (Option Alert) × Heap
  unfolding row_of scan_row
  find_by_id id db h = scan_row (row_of row_id id db.replica) h

  unfoldable pub find_by_fingerprint : String → Tables Text → Heap → Result (List Alert) × Heap
  unfolding scan_alerts order_by
  find_by_fingerprint fp db h =
      scan_alerts (order_by (λ r. r.created_at) (filter (λ r. r.fingerprint == fp) db.replica)) h

  -- JSON_EXTRACT(external_references, CONCAT('$.', ?)) = ?; NULL equals nothing
  abbrev extracted_is : Option String → String → Bool
  extracted_is none value = false
  extracted_is (some s) value = s == value

  unfoldable pub first_row : (AlertRow Text → Bool) → List (AlertRow Text) → Option (AlertRow Text)
  first_row p [] = none
  first_row p (r ∷ rs) = if p r then some r else first_row p rs

  unfoldable pub find_by_external_reference :
      String → String → Tables Text → Heap → Result (Option Alert) × Heap
  unfolding first_row scan_row
  find_by_external_reference key value db h =
      scan_row (first_row (λ r. extracted_is (extract r.external_references key) value) db.replica)
        h

  unfoldable pub find_active : Tables Text → Heap → Result (List Alert) × Heap
  unfolding scan_alerts order_by
  find_active db h =
      scan_alerts (order_by (λ r. r.fired_at) (filter (λ r. not (is_resolved_row r)) db.replica)) h

  unfoldable pub find_firing : Tables Text → Heap → Result (List Alert) × Heap
  unfolding scan_alerts order_by
  find_firing db h = scan_alerts (order_by (λ r. r.fired_at) (filter is_firing_row db.replica)) h

  unfoldable pub get_active_alerts : String → Tables Text → Heap → Result (List Alert) × Heap
  unfolding scan_alerts order_by
  get_active_alerts severity db h =
      scan_alerts
        (order_by (λ r. r.fired_at)
          (filter
            (λ r.
              not (is_resolved_row r)
              && (not (is_set severity) || (severity_text r.severity == severity)))
            db.replica))
        h
