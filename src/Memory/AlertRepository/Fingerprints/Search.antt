-- ===== src/Memory/AlertRepository/Fingerprints/Search.antt =====
-- What the search by fingerprint finds.
use alert_bridge.Base.{String, ◌≡◌, ap, ◌∙◌, ◌↔◌, some, arith, In}
use alert_bridge.Base.Assoc.{lookup, get_or}
use alert_bridge.Entity.Alert.{Alert}
use alert_bridge.Memory.AlertRepository.{AlertRepository, new_alert_repository, find_by_fingerprint}
use alert_bridge.Memory.AlertRepository.Fingerprints.{
  ids_of, IsIndexed, alerts_of_sound, alerts_of_complete,
}

-- In a repository whose index is in order, the search by fingerprint finds exactly the stored alerts
-- with that fingerprint.
pub find_by_fingerprint_iff :
    (fp : String) (a : Alert) (r : AlertRepository)
    → IsIndexed r
    → In a (find_by_fingerprint fp r) ↔ ((lookup a.id r.alerts ≡ some a) × (a.fingerprint ≡ fp))
unfolding find_by_fingerprint
find_by_fingerprint_iff fp a r v = (
  λ i.
      let (id, c, e) = alerts_of_sound r.alerts (ids_of fp r) a i in
      let (b, eb, fb) = v.backed fp id c in
      (ap (λ k. lookup k r.alerts) (v.own_id id a e) ∙ e, ground arith),
  λ (e, f). alerts_of_complete r.alerts (ids_of fp r) a.id a (rw (← f) (v.listed a.id a e)) e,
)

-- The empty repository's index is in order.
pub new-IsIndexed : IsIndexed new_alert_repository
unfolding new_alert_repository lookup get_or
new-IsIndexed = record {
  own_id = λ id a e. cc;
  listed = λ id a e. cc;
  backed = λ fp id c. cc;
  distinct = λ fp. tt;
}
