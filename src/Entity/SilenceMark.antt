-- ===== src/Entity/SilenceMark.antt =====
-- internal/domain/entity/silence_mark.go. Each `now` is the reading of the clock that the method
-- takes; a chained setter returns the mark that it changed.
pub mod Matching
pub mod Phases
use alert_bridge.Base.{
  ℕ, ◌-◌, String, Bool, true, false, not, ◌&&◌, Option, none, some, List, [], ◌∷◌, ◌==◌, is_set,
  if◌then◌else◌, ltb,
}
use alert_bridge.Base.Assoc.{Map, insert, get_or}
use alert_bridge.Base.Int.{ℤ, is_positive, add_duration}
use alert_bridge.Errors.{Result, ok, err, sentinel, invalid_silence_duration}
use alert_bridge.Entity.Alert.{Alert}
use alert_bridge.Entity.AckEvent.{AckSource}

pub record SilenceMark : Type 0 where
  pub id : String
  pub alert_id : String
  pub instance_name : String
  pub fingerprint : String
  pub labels : Map String
  pub start_at : ℕ
  pub end_at : ℕ
  pub created_by : String
  pub created_by_email : String
  pub reason : String
  pub source : AckSource
  pub created_at : ℕ

unfoldable pub new_silence_mark :
    String → ℕ → ℤ → (created_by created_by_email : String) → AckSource → Result SilenceMark
unfolding is_positive add_duration
new_silence_mark id now duration created_by created_by_email source =
    if is_positive duration
    then ok (record {
      id = id;
      alert_id = "";
      instance_name = "";
      fingerprint = "";
      labels = [];
      start_at = now;
      end_at = add_duration now duration;
      created_by = created_by;
      created_by_email = created_by_email;
      reason = "";
      source = source;
      created_at = now;
    })
    else err (sentinel invalid_silence_duration)

unfoldable pub for_alert : String → SilenceMark → SilenceMark
for_alert alert_id s = record s { alert_id = alert_id }

unfoldable pub for_instance : String → SilenceMark → SilenceMark
for_instance instance_name s = record s { instance_name = instance_name }

unfoldable pub for_fingerprint : String → SilenceMark → SilenceMark
for_fingerprint fingerprint s = record s { fingerprint = fingerprint }

unfoldable pub with_label : String → String → SilenceMark → SilenceMark
with_label k v s = record s { labels = insert k v s.labels }

-- for k, v := range matchers { into[k] = v }
unfoldable pub insert_all : Map String → Map String → Map String
insert_all [] into = into
insert_all ((k, v) ∷ m) into = insert_all m (insert k v into)

unfoldable pub with_matchers : Map String → SilenceMark → SilenceMark
unfolding insert_all
with_matchers matchers s = record s { labels = insert_all matchers s.labels }

unfoldable pub with_reason : String → SilenceMark → SilenceMark
with_reason reason s = record s { reason = reason }

unfoldable pub is_active : ℕ → SilenceMark → Bool
is_active now s = ltb s.start_at now && ltb now s.end_at

unfoldable pub is_expired : ℕ → SilenceMark → Bool
is_expired now s = ltb s.end_at now

unfoldable pub is_pending : ℕ → SilenceMark → Bool
is_pending now s = ltb now s.start_at

-- A negative rest is reported as 0, which is what `-` gives.
unfoldable pub remaining_duration : ℕ → SilenceMark → ℕ
remaining_duration now s = s.end_at - now

unfoldable pub cancel : ℕ → SilenceMark → SilenceMark
cancel now s = record s { end_at = now }

unfoldable pub extend : ℤ → SilenceMark → Result SilenceMark
unfolding is_positive add_duration
extend duration s =
    if is_positive duration
    then ok (record s { end_at = add_duration s.end_at duration })
    else err (sentinel invalid_silence_duration)

-- A label that the alert lacks reads as the empty text.
unfoldable pub matches_labels : Map String → Map String → Bool
matches_labels [] alert_labels = true
matches_labels ((k, v) ∷ m) alert_labels =
    let rest = matches_labels m alert_labels in
    if get_or "" k alert_labels == v then rest else false

-- `len(m) > 0`
abbrev pub has_entries : Map String → Bool
has_entries [] = false
has_entries (_ ∷ _) = true

unfoldable pub matches_alert : ℕ → Alert → SilenceMark → Bool
unfolding is_active
matches_alert now a s =
    if not (is_active now s)
    then false
    else if is_set s.alert_id && (s.alert_id == a.id)
    then true
    else if is_set s.fingerprint && (s.fingerprint == a.fingerprint)
    then true
    else if is_set s.instance_name && (s.instance_name == a.instance_name)
    then (if has_entries s.labels then matches_labels s.labels a.labels else true)
    else if (s.alert_id == "")
        && (s.fingerprint == "")
        && (s.instance_name == "")
        && has_entries s.labels
    then matches_labels s.labels a.labels
    else false
