-- ===== src/Entity/Alert.antt =====
-- internal/domain/entity/alert.go. The map of external references is shared between an alert and
-- its shallow copies, so it is an address; labels and annotations are written only while an alert
-- is being built, before any copy is made, and are values. A nil map and an empty map read alike.
-- `now` is a reading of the clock and `id` a fresh identifier, which the caller draws.
pub mod Lifecycle
pub mod References
use alert_bridge.Base.{ℕ, String, Bool, true, false, not, Option, none, some, [], is_set}
use alert_bridge.Base.Assoc.{Map, insert, get_or}
use alert_bridge.Base.Heap.{Heap, read, write, make}
use alert_bridge.Errors.{Error, sentinel, alert_already_resolved, alert_already_acked}

pub data AlertSeverity : Type 0 where
  critical warning info : AlertSeverity

pub data AlertState : Type 0 where
  active acknowledged resolved : AlertState

abbrev pub severity_text : AlertSeverity → String
severity_text critical = "critical"
severity_text warning = "warning"
severity_text info = "info"

abbrev pub alert_state_text : AlertState → String
alert_state_text active = "active"
alert_state_text acknowledged = "acknowledged"
alert_state_text resolved = "resolved"

pub record Alert : Type 0 where
  pub id : String
  pub fingerprint : String
  pub name : String
  pub instance_name : String
  pub target : String
  pub summary : String
  pub description : String
  pub severity : AlertSeverity
  pub state : AlertState
  pub labels : Map String
  pub annotations : Map String
  pub external_references : Option ℕ
  pub fired_at : ℕ
  pub acked_at : Option ℕ
  pub acked_by : String
  pub resolved_at : Option ℕ
  pub created_at : ℕ
  pub updated_at : ℕ

-- The map of external references is made on the heap.
unfoldable pub new_alert :
    String
    → ℕ
    → (fingerprint name instance_name target summary : String) → AlertSeverity
    → Heap
    → Alert × Heap
unfolding make
new_alert id now fingerprint name instance_name target summary severity h =
    let (refs, h') = make h in
    (
      record {
        id = id;
        fingerprint = fingerprint;
        name = name;
        instance_name = instance_name;
        target = target;
        summary = summary;
        description = "";
        severity = severity;
        state = active;
        labels = [];
        annotations = [];
        external_references = some refs;
        fired_at = now;
        acked_at = none;
        acked_by = "";
        resolved_at = none;
        created_at = now;
        updated_at = now;
      },
      h',
    )

-- `none` is the nil error; an error leaves the alert as it is.
unfoldable pub acknowledge : String → ℕ → Alert → Alert × Option Error
acknowledge by at a = elim a.state [
  | resolved ↦ (a, some (sentinel alert_already_resolved))
  | acknowledged ↦ (a, some (sentinel alert_already_acked))
  | active ↦
      (record a { state = acknowledged; acked_at = some at; acked_by = by; updated_at = at }, none)
]

unfoldable pub resolve : ℕ → Alert → Alert
resolve at a = record a { state = resolved; resolved_at = some at; updated_at = at }

abbrev pub is_active_state : AlertState → Bool
is_active_state active = true
is_active_state _ = false

abbrev pub is_acked_state : AlertState → Bool
is_acked_state acknowledged = true
is_acked_state _ = false

abbrev is_resolved_state : AlertState → Bool
is_resolved_state resolved = true
is_resolved_state _ = false

unfoldable pub is_active : Alert → Bool
is_active a = is_active_state a.state

unfoldable pub is_acked : Alert → Bool
is_acked a = is_acked_state a.state

unfoldable pub is_firing : Alert → Bool
is_firing a = not (is_resolved_state a.state)

unfoldable pub is_resolved : Alert → Bool
is_resolved a = is_resolved_state a.state

unfoldable pub add_label : String → String → Alert → Alert
add_label k v a = record a { labels = insert k v a.labels }

unfoldable pub add_annotation : String → String → Alert → Alert
add_annotation k v a = record a { annotations = insert k v a.annotations }

unfoldable pub get_label : String → Alert → String
get_label k a = get_or "" k a.labels

unfoldable pub get_annotation : String → Alert → String
get_annotation k a = get_or "" k a.annotations

-- A write through the address: every copy of the alert sees it. A nil map is made first.
unfoldable pub set_external_reference : String → String → ℕ → Alert → Heap → Alert × Heap
unfolding make write
set_external_reference system reference now a h = elim a.external_references [
  | none ↦
      let (refs, h') = make h in
      (
        record a { external_references = some refs; updated_at = now },
        write refs (insert system reference []) h',
      )
  | some refs ↦
      (record a { updated_at = now }, write refs (insert system reference (h.cells refs)) h)
]

unfoldable pub get_external_reference : String → Heap → Alert → String
unfolding read
get_external_reference system h a = get_or "" system (read h a.external_references)

unfoldable pub has_external_reference : String → Heap → Alert → Bool
unfolding get_external_reference
has_external_reference system h a = is_set (get_external_reference system h a)
