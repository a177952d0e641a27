-- ===== src/Mysql/AlertRepository.antt =====
-- internal/infrastructure/persistence/mysql/alert_repository.go. Statements that write go to the
-- primary, and those that read go to the replica, a table that may lag behind. `keep` is what a
-- TIMESTAMP column keeps of a time. Update is several statements, and other clients may write between
-- two of them: `between` and `later` are what they do to the table.
pub mod Reads
pub mod Versions
pub mod LostUpdates
use alert_bridge.Base.{
  ℕ, ◌+◌, String, Bool, true, false, not, ◌&&◌, ◌||◌, Option, none, some, List, [], ◌∷◌, ◌++◌, ◌==◌,
  eqb, leb, is_set, if◌then◌else◌, filter, map,
}
use alert_bridge.Base.Assoc.{Map}
use alert_bridge.Base.Heap.{Heap, make, write}
use alert_bridge.Errors.{
  Result, ok, err, sentinel, wrapped, already_exists, not_found, concurrent_update,
}
use alert_bridge.Entity.Alert.{
  Alert, AlertSeverity, AlertState, active, acknowledged, resolved, severity_text,
}
use alert_bridge.Sql.Json.{JsonCodec}
use alert_bridge.Sql.Tables.{row_of, delete_rows, map_option}
use alert_bridge.Sql.Versions.{update_where, any_target}
use alert_bridge.Mysql.Columns.{null_text, string_value, marshal_map, unmarshal_map}

pub record AlertRow (Text : Type 0) : Type 0 where
  pub id : String
  pub fingerprint : String
  pub name : String
  pub instance_name : String
  pub target : String
  pub summary : String
  pub description : String
  pub severity : AlertSeverity
  pub state : AlertState
  pub labels : Text
  pub annotations : Text
  pub external_references : Text
  pub fired_at : ℕ
  pub acked_at : Option ℕ
  pub acked_by : Option String
  pub resolved_at : Option ℕ
  pub version : ℕ
  pub created_at : ℕ
  pub updated_at : ℕ

abbrev pub row_id : {T : Type 0} → AlertRow T → String
row_id r = r.id

abbrev pub row_version : {T : Type 0} → AlertRow T → ℕ
row_version r = r.version

pub record Tables (Text : Type 0) : Type 0 where
  pub primary : List (AlertRow Text)
  pub replica : List (AlertRow Text)

module _ (c : JsonCodec) (keep : ℕ → ℕ) where
  open c use {Text, encode, extract}

  -- The arguments of the INSERT, in version 1.
  unfoldable pub to_row : Heap → Alert → AlertRow Text
  unfolding null_text marshal_map
  to_row h a = record {
    id = a.id;
    fingerprint = a.fingerprint;
    name = a.name;
    instance_name = a.instance_name;
    target = a.target;
    summary = a.summary;
    description = a.description;
    severity = a.severity;
    state = a.state;
    labels = encode a.labels;
    annotations = encode a.annotations;
    external_references = marshal_map c h a.external_references;
    fired_at = keep a.fired_at;
    acked_at = map_option keep a.acked_at;
    acked_by = null_text a.acked_by;
    resolved_at = map_option keep a.resolved_at;
    version = 1;
    created_at = keep a.created_at;
    updated_at = keep a.updated_at;
  }

  unfoldable pub save : Heap → Alert → List (AlertRow Text) → Result (List (AlertRow Text))
  unfolding to_row row_of
  save h a t = elim (row_of row_id a.id t) [
    | some _ ↦ err (sentinel already_exists)
    | none ↦ ok (t ++ to_row h a ∷ [])
  ]

  -- SET ..., version = version + 1; the id and the time of creation stay
  unfoldable pub set_columns : Heap → Alert → AlertRow Text → AlertRow Text
  unfolding to_row
  set_columns h a r = record (to_row h a) {
    id = r.id;
    version = r.version + 1;
    created_at = r.created_at;
  }

  -- The last statement tells a missing alert from one in another version.
  unfoldable pub explain_miss :
      String → List (AlertRow Text) → Result (Unit {0}) × List (AlertRow Text)
  unfolding row_of
  explain_miss id t = elim (row_of row_id id t) [
    | none ↦ (err (sentinel not_found), t)
    | some _ ↦ (err (sentinel concurrent_update), t)
  ]

  unfoldable pub update_version :
      (later : List (AlertRow Text) → List (AlertRow Text))
      → Heap
      → Alert
      → ℕ
      → List (AlertRow Text)
      → Result (Unit {0}) × List (AlertRow Text)
  unfolding update_where any_target set_columns explain_miss
  update_version later h a version t =
      if any_target row_id row_version a.id version t
      then (ok tt, update_where row_id row_version (set_columns h a) a.id version t)
      else explain_miss a.id (later t)

  unfoldable pub update :
      (between later : List (AlertRow Text) → List (AlertRow Text))
      → Heap
      → Alert
      → List (AlertRow Text)
      → Result (Unit {0}) × List (AlertRow Text)
  unfolding update_version row_of
  update between later h a t = elim (row_of row_id a.id t) [
    | none ↦ (err (sentinel not_found), t)
    | some r ↦ update_version later h a r.version (between t)
  ]

  unfoldable pub delete_alert : String → List (AlertRow Text) → Result (List (AlertRow Text))
  unfolding row_of delete_rows
  delete_alert id t = elim (row_of row_id id t) [
    | none ↦ err (sentinel not_found)
    | some _ ↦ ok (delete_rows row_id id t)
  ]
