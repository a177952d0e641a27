-- ===== src/Memory/AlertRepository.antt =====
-- internal/infrastructure/persistence/memory/alert_repository.go. A stored alert is a shallow copy:
-- the record is copied, and the address of its map of external references is shared with the
-- caller's alert. So a method that reads references takes the heap. A missing entry of an index
-- reads as the empty list or the empty map, as a nil one does.
pub mod Fingerprints
pub mod Firing
pub mod SharedReferences
use alert_bridge.Base.{
  ℕ, String, Bool, true, false, not, ◌&&◌, Option, none, some, List, [], ◌∷◌, ◌++◌, ◌==◌, is_set,
  if◌then◌else◌, filter, contains,
}
use alert_bridge.Base.Assoc.{Map, lookup, insert, delete, get_or, values}
use alert_bridge.Base.Heap.{Heap, read}
use alert_bridge.Errors.{Result, ok, err, sentinel, duplicate_alert, alert_not_found}
use alert_bridge.Entity.Alert.{Alert, is_active, is_firing, severity_text, get_external_reference}

pub record AlertRepository : Type 0 where
  pub alerts : Map Alert
  pub by_fingerprint : Map (List String)
  pub by_external_ref : Map (Map String)

unfoldable pub new_alert_repository : AlertRepository
new_alert_repository = record { alerts = []; by_fingerprint = []; by_external_ref = [] }

-- r.byExternalRef[system][reference] = id, the inner map being made if it is nil
unfoldable pub put_reference : String → String → String → Map (Map String) → Map (Map String)
put_reference system reference id index =
    insert system (insert reference id (get_or [] system index)) index

-- delete(r.byExternalRef[system], reference), if the inner map is not nil
unfoldable pub drop_reference : String → String → Map (Map String) → Map (Map String)
unfolding lookup
drop_reference system reference index = elim (lookup system index) [
  | none ↦ index
  | some m ↦ insert system (delete reference m) index
]

-- the loop over the references of a saved alert
unfoldable pub index_references : Map String → String → Map (Map String) → Map (Map String)
unfolding put_reference
index_references [] id index = index
index_references ((system, reference) ∷ m) id index =
    index_references m id
      (if is_set reference then put_reference system reference id index else index)

unfoldable pub save : Heap → Alert → AlertRepository → Result AlertRepository
unfolding lookup index_references
save h a r = elim (lookup a.id r.alerts) [
  | some _ ↦ err (sentinel duplicate_alert)
  | none ↦ ok (record {
    alerts = insert a.id a r.alerts;
    by_fingerprint =
        insert a.fingerprint (get_or [] a.fingerprint r.by_fingerprint ++ a.id ∷ [])
          r.by_fingerprint;
    by_external_ref = index_references (read h a.external_references) a.id r.by_external_ref;
  })
]

unfoldable pub find_by_id : String → AlertRepository → Option Alert
unfolding lookup
find_by_id id r = lookup id r.alerts

abbrev pub cons_found : Option Alert → List Alert → List Alert
cons_found none found = found
cons_found (some a) found = a ∷ found

-- The alerts of a list of ids; an id with no alert is skipped.
unfoldable pub alerts_of : Map Alert → List String → List Alert
alerts_of alerts [] = []
alerts_of alerts (id ∷ ids) = cons_found (lookup id alerts) (alerts_of alerts ids)

unfoldable pub find_by_fingerprint : String → AlertRepository → List Alert
unfolding alerts_of
find_by_fingerprint fingerprint r = alerts_of r.alerts (get_or [] fingerprint r.by_fingerprint)

find_in_system : Option (Map String) → String → AlertRepository → Option Alert
find_in_system none reference r = none
find_in_system (some m) reference r = elim (lookup reference m) [
  | none ↦ none
  | some id ↦ lookup id r.alerts
]

unfoldable pub find_by_external_reference : String → String → AlertRepository → Option Alert
unfolding find_in_system lookup
find_by_external_reference system reference r =
    find_in_system (lookup system r.by_external_ref) reference r

-- the first loop of Update, over the references of the stored alert; `a` is the new one
unfoldable pub drop_changed : Map String → Heap → Alert → Map (Map String) → Map (Map String)
unfolding drop_reference get_external_reference
drop_changed [] h a index = index
drop_changed ((system, reference) ∷ m) h a index = drop_changed m h a (
    if not (reference == get_external_reference system h a) && is_set reference
    then drop_reference system reference index
    else index)

-- the second loop of Update, over the references of the new alert
unfoldable pub add_changed :
    Map String → Heap → Alert → String → Map (Map String) → Map (Map String)
unfolding put_reference get_external_reference
add_changed [] h existing id index = index
add_changed ((system, reference) ∷ m) h existing id index = add_changed m h existing id (
    if not (reference == get_external_reference system h existing) && is_set reference
    then put_reference system reference id index
    else index)

unfoldable pub update : Heap → Alert → AlertRepository → Result AlertRepository
unfolding lookup drop_changed add_changed
update h a r = elim (lookup a.id r.alerts) [
  | none ↦ err (sentinel alert_not_found)
  | some existing ↦ ok (record r {
    alerts = insert a.id a r.alerts;
    by_external_ref =
        add_changed (read h a.external_references) h existing a.id
          (drop_changed (read h existing.external_references) h a r.by_external_ref);
  })
]

unfoldable pub find_active : AlertRepository → List Alert
unfolding is_active
find_active r = filter is_active (values r.alerts)

unfoldable pub find_firing : AlertRepository → List Alert
unfolding is_firing
find_firing r = filter is_firing (values r.alerts)

-- The empty text asks for every severity.
abbrev pub severity_passes : String → Alert → Bool
severity_passes severity a = not (is_set severity && not (severity_text a.severity == severity))

unfoldable pub get_active_alerts : String → AlertRepository → List Alert
unfolding is_active
get_active_alerts severity r =
    filter (λ a. is_active a && severity_passes severity a) (values r.alerts)

-- the loop of Delete over the references of the stored alert
unfoldable pub drop_all : Map String → Map (Map String) → Map (Map String)
unfolding drop_reference
drop_all [] index = index
drop_all ((system, reference) ∷ m) index =
    drop_all m (if is_set reference then drop_reference system reference index else index)

-- append(ids[:i], ids[i+1:]...) for the first i with ids[i] == id
unfoldable pub remove_first : String → List String → List String
remove_first id [] = []
remove_first id (x ∷ xs) = if x == id then xs else x ∷ remove_first id xs

-- The index is written only if the id is found.
unfoldable pub unindex : String → String → Map (List String) → Map (List String)
unfolding remove_first
unindex key id index =
    let ids = get_or [] key index in
    if contains id ids then insert key (remove_first id ids) index else index

unfoldable pub delete_alert : Heap → String → AlertRepository → Result AlertRepository
unfolding lookup drop_all unindex
delete_alert h id r = elim (lookup id r.alerts) [
  | none ↦ err (sentinel alert_not_found)
  | some a ↦ ok (record {
    alerts = delete id r.alerts;
    by_fingerprint = unindex a.fingerprint id r.by_fingerprint;
    by_external_ref = drop_all (read h a.external_references) r.by_external_ref;
  })
]
