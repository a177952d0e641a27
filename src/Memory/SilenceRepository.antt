-- ===== src/Memory/SilenceRepository.antt =====
-- internal/infrastructure/persistence/memory/silence_repository.go. Silences are copied with their
-- labels, so they are values. A method reads the clock anew for each silence that it tests; the
-- model gives all tests of one call the same reading `now`.
pub mod Matches
pub mod Search
pub mod Listing
use alert_bridge.Base.{
  ℕ, String, Bool, true, false, not, ◌&&◌, Option, none, some, List, [], ◌∷◌, ◌++◌, ◌==◌, is_set,
  if◌then◌else◌, filter, contains, length,
}
use alert_bridge.Base.Assoc.{Map, lookup, insert, delete, get_or, values}
use alert_bridge.Errors.{Result, ok, err, sentinel, silence_not_found}
use alert_bridge.Entity.Alert.{Alert}
use alert_bridge.Entity.SilenceMark.{SilenceMark, is_active, is_expired, matches_alert}
use alert_bridge.Memory.AlertRepository.{unindex}

pub record SilenceRepository : Type 0 where
  pub silences : Map SilenceMark
  pub by_alert_id : Map (List String)
  pub by_instance : Map (List String)
  pub by_fingerprint : Map (List String)

unfoldable pub new_silence_repository : SilenceRepository
new_silence_repository = record {
  silences = [];
  by_alert_id = [];
  by_instance = [];
  by_fingerprint = [];
}

-- The index is written only under a key that is set.
unfoldable pub add_to_index : String → String → Map (List String) → Map (List String)
add_to_index key id index =
    if is_set key then insert key (get_or [] key index ++ id ∷ []) index else index

unfoldable pub remove_from_index : String → String → Map (List String) → Map (List String)
unfolding unindex
remove_from_index key id index = if is_set key then unindex key id index else index

-- Save does not look for an earlier silence of the same id.
unfoldable pub save_silence : SilenceMark → SilenceRepository → SilenceRepository
unfolding add_to_index
save_silence s r = record {
  silences = insert s.id s r.silences;
  by_alert_id = add_to_index s.alert_id s.id r.by_alert_id;
  by_instance = add_to_index s.instance_name s.id r.by_instance;
  by_fingerprint = add_to_index s.fingerprint s.id r.by_fingerprint;
}

unfoldable pub find_silence_by_id : String → SilenceRepository → Option SilenceMark
unfolding lookup
find_silence_by_id id r = lookup id r.silences

unfoldable pub find_active_silences : ℕ → SilenceRepository → List SilenceMark
unfolding is_active
find_active_silences now r = filter (is_active now) (values r.silences)

abbrev cons_active : ℕ → Option SilenceMark → List SilenceMark → List SilenceMark
cons_active now none found = found
cons_active now (some s) found = if is_active now s then s ∷ found else found

unfoldable pub active_of : ℕ → Map SilenceMark → List String → List SilenceMark
unfolding is_active lookup
active_of now silences [] = []
active_of now silences (id ∷ ids) =
    cons_active now (lookup id silences) (active_of now silences ids)

unfoldable pub find_silences_by_alert_id : ℕ → String → SilenceRepository → List SilenceMark
unfolding active_of
find_silences_by_alert_id now key r = active_of now r.silences (get_or [] key r.by_alert_id)

unfoldable pub find_silences_by_instance : ℕ → String → SilenceRepository → List SilenceMark
unfolding active_of
find_silences_by_instance now key r = active_of now r.silences (get_or [] key r.by_instance)

unfoldable pub find_silences_by_fingerprint : ℕ → String → SilenceRepository → List SilenceMark
unfolding active_of
find_silences_by_fingerprint now key r = active_of now r.silences (get_or [] key r.by_fingerprint)

-- The matches found so far, and the ids that are in `seen`.
pub record Found : Type 0 where
  pub found : List SilenceMark
  pub seen : List String

-- One candidate: taken if it matches and its id has not been seen.
unfoldable pub visit : ℕ → Alert → String → Option SilenceMark → Found → Found
visit now a id none f = f
visit now a id (some s) f =
    if matches_alert now a s && not (contains id f.seen)
    then record { found = f.found ++ s ∷ []; seen = id ∷ f.seen }
    else f

unfoldable pub visit_ids : ℕ → Alert → Map SilenceMark → List String → Found → Found
unfolding visit lookup
visit_ids now a silences [] f = f
visit_ids now a silences (id ∷ ids) f =
    visit_ids now a silences ids (visit now a id (lookup id silences) f)

-- `s` names no alert, fingerprint or instance.
unfoldable pub is_label_only : SilenceMark → Bool
is_label_only s = (s.alert_id == "") && (s.fingerprint == "") && (s.instance_name == "")

unfoldable pub visit_label_only : ℕ → Alert → Map SilenceMark → Found → Found
unfolding visit
visit_label_only now a [] f = f
visit_label_only now a ((id, s) ∷ m) f =
    visit_label_only now a m (if is_label_only s then visit now a id (some s) f else f)

unfoldable pub find_matching_alert : ℕ → Alert → SilenceRepository → List SilenceMark
unfolding visit_ids visit_label_only
find_matching_alert now a r =
    let f =
      visit_ids now a r.silences (get_or [] a.id r.by_alert_id)
        (record { found = []; seen = [] }) in
    let g = visit_ids now a r.silences (get_or [] a.fingerprint r.by_fingerprint) f in
    let h = visit_ids now a r.silences (get_or [] a.instance_name r.by_instance) g in
    (visit_label_only now a r.silences h).found

unfoldable pub update_silence : SilenceMark → SilenceRepository → Result SilenceRepository
unfolding lookup
update_silence s r = elim (lookup s.id r.silences) [
  | none ↦ err (sentinel silence_not_found)
  | some _ ↦ ok (record r { silences = insert s.id s r.silences })
]

unfoldable pub remove_silence : String → SilenceMark → SilenceRepository → SilenceRepository
unfolding remove_from_index
remove_silence id s r = record {
  silences = delete id r.silences;
  by_alert_id = remove_from_index s.alert_id id r.by_alert_id;
  by_instance = remove_from_index s.instance_name id r.by_instance;
  by_fingerprint = remove_from_index s.fingerprint id r.by_fingerprint;
}

unfoldable pub delete_silence : String → SilenceRepository → Result SilenceRepository
unfolding lookup remove_silence
delete_silence id r = elim (lookup id r.silences) [
  | none ↦ err (sentinel silence_not_found)
  | some s ↦ ok (remove_silence id s r)
]

-- The ids of the expired silences, in the order of the range.
unfoldable pub expired_ids : ℕ → Map SilenceMark → List String
unfolding is_expired
expired_ids now [] = []
expired_ids now ((id, s) ∷ m) =
    let rest = expired_ids now m in if is_expired now s then id ∷ rest else rest

remove_present : String → Option SilenceMark → SilenceRepository → SilenceRepository
unfolding remove_silence
remove_present id none r = r
remove_present id (some s) r = remove_silence id s r

unfoldable pub remove_all : List String → SilenceRepository → SilenceRepository
unfolding remove_present lookup
remove_all [] r = r
remove_all (id ∷ ids) r = remove_all ids (remove_present id (lookup id r.silences) r)

unfoldable pub delete_expired : ℕ → SilenceRepository → ℕ × SilenceRepository
unfolding expired_ids remove_all
delete_expired now r = let ids = expired_ids now r.silences in (length ids, remove_all ids r)
