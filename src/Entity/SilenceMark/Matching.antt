-- ===== src/Entity/SilenceMark/Matching.antt =====
-- Which alerts a silence applies to.
use alert_bridge.Base.{
  ℕ, ◌<◌, String, ◌≡◌, refl, ◌≢◌, ◌↔◌, ◌⊎◌, true, false, none, [], ◌∷◌, arith, eq_iff,
}
use alert_bridge.Base.Assoc.{Map, get_or, lookup, get_or-missing}
use alert_bridge.Entity.Alert.{Alert}
use alert_bridge.Entity.SilenceMark.{SilenceMark, is_active, matches_labels, matches_alert}

-- Every label of the silence has the value that the alert's labels give for its key.
abbrev pub LabelsAgree : Map String → Map String → Type 0
LabelsAgree [] alert_labels = Unit
LabelsAgree ((k, v) ∷ m) alert_labels = (get_or "" k alert_labels ≡ v) × LabelsAgree m alert_labels

pub matches_labels_iff :
    (m alert_labels : Map String)
    → (matches_labels m alert_labels ≡ true) ↔ LabelsAgree m alert_labels
unfolding matches_labels
matches_labels_iff [] l = (λ _. tt, λ _. refl)
matches_labels_iff ((k, v) ∷ m) l = (
  λ h. ground (arith, eq_iff (get_or "" k l) v, (matches_labels_iff m l).0),
  λ h. ground (arith, eq_iff (get_or "" k l) v, (matches_labels_iff m l).1 h.1),
)

-- What a silence names: the alert, its fingerprint, its instance (with the labels, if there are
-- any), or nothing but labels.
abbrev pub Targets : SilenceMark → Alert → Type 0
Targets s a =
    ((s.alert_id ≢ "") × (s.alert_id ≡ a.id))
    ⊎ ((s.fingerprint ≢ "") × (s.fingerprint ≡ a.fingerprint))
    ⊎ ((s.instance_name ≢ "") × (s.instance_name ≡ a.instance_name) × LabelsAgree s.labels a.labels)
    ⊎ ((s.alert_id ≡ "")
        × (s.fingerprint ≡ "")
        × (s.instance_name ≡ "")
        × (s.labels ≢ [])
        × LabelsAgree s.labels a.labels)

matches_alert_sound :
    (now : ℕ) (a : Alert) (s : SilenceMark)
    → matches_alert now a s ≡ true
    → (s.start_at < now) × (now < s.end_at) × Targets s a
unfolding matches_alert is_active
matches_alert_sound now a s h = ground (
  arith,
  eq_iff s.alert_id "",
  eq_iff s.alert_id a.id,
  eq_iff s.fingerprint "",
  eq_iff s.fingerprint a.fingerprint,
  eq_iff s.instance_name "",
  eq_iff s.instance_name a.instance_name,
  matches_labels_iff s.labels a.labels,
)

matches_alert_complete :
    (now : ℕ) (a : Alert) (s : SilenceMark)
    → s.start_at < now
    → now < s.end_at
    → Targets s a
    → matches_alert now a s ≡ true
unfolding matches_alert is_active
matches_alert_complete now a s h k t = ground (
  arith,
  eq_iff s.alert_id "",
  eq_iff s.alert_id a.id,
  eq_iff s.fingerprint "",
  eq_iff s.fingerprint a.fingerprint,
  eq_iff s.instance_name "",
  eq_iff s.instance_name a.instance_name,
  matches_labels_iff s.labels a.labels,
)

-- A silence matches an alert exactly while it is active, strictly between its start and its end,
-- and names the alert: by id or by fingerprint, whatever its labels are; by instance together with
-- every label that it has, also where it names another alert by id; or, if it names none of the
-- three, by at least one label with every label agreeing.
pub matches_alert_iff :
    (now : ℕ) (a : Alert) (s : SilenceMark)
    → (matches_alert now a s ≡ true) ↔ ((s.start_at < now) × (now < s.end_at) × Targets s a)
matches_alert_iff now a s =
    (matches_alert_sound now a s, λ h. matches_alert_complete now a s h.0 h.1 h.2)

-- A silence that names no alert, fingerprint or instance and has no label matches nothing, ever.
pub matches_alert-empty :
    (now : ℕ) (a : Alert) (s : SilenceMark)
    → s.alert_id ≡ ""
    → s.fingerprint ≡ ""
    → s.instance_name ≡ ""
    → s.labels ≡ []
    → matches_alert now a s ≡ false
unfolding matches_alert
matches_alert-empty now a s i f n l =
    ground (arith, eq_iff s.alert_id "", eq_iff s.fingerprint "", eq_iff s.instance_name "")

-- A label with the empty value agrees with an alert that has no such label.
pub matches_labels-absent :
    (k : String) (l : Map String) → lookup k l ≡ none → matches_labels ((k, "") ∷ []) l ≡ true
matches_labels-absent k l e = (matches_labels_iff ((k, "") ∷ []) l).1 (get_or-missing "" k l e, tt)
