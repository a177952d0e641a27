-- ===== src/Memory/AlertRepository/Fingerprints/Delete.antt =====
-- Delete keeps the index by fingerprint.
use alert_bridge.Base.{
  String, ◌≡◌, refl, ◌⊎◌, inl, inr, false, none, some, [], arith, ◌==◌, eq_iff, if◌then◌else◌,
  Bool-cases, Option-cases, contains,
}
use alert_bridge.Base.Assoc.{Map, lookup, delete, lookup-delete, get_or-insert}
use alert_bridge.Base.Heap.{Heap, read}
use alert_bridge.Errors.{ok, err, sentinel, alert_not_found}
use alert_bridge.Entity.Alert.{Alert}
use alert_bridge.Memory.AlertRepository.{
  AlertRepository, delete_alert, remove_first, unindex, drop_all,
}
use alert_bridge.Memory.AlertRepository.Fingerprints.{
  ids_of, IsIndexed, contains-remove_first, Distinct-remove_first,
}

module _ (id : String) (a : Alert) (r : AlertRepository) (refs : Map (Map String))
    (e : lookup id r.alerts ≡ some a) (v : IsIndexed r) where
  abbrev removed : AlertRepository
  removed = record {
    alerts = delete id r.alerts;
    by_fingerprint = unindex a.fingerprint id r.by_fingerprint;
    by_external_ref = refs;
  }

  ids_of-removed :
      (fp : String)
      → ids_of fp removed
        ≡ (if a.fingerprint == fp then remove_first id (ids_of a.fingerprint r) else ids_of fp r)
  unfolding unindex
  ids_of-removed fp = rw (v.listed id a e) (get_or-insert [] a.fingerprint fp _ r.by_fingerprint)

  elsewhere : (fp : String) → (a.fingerprint == fp) ≡ false → contains id (ids_of fp r) ≡ false
  elsewhere fp ne = elim (Bool-cases (contains id (ids_of fp r))) [
    | inl c ↦ let (b, eb, fb) = v.backed fp id c in ground (arith, eq_iff a.fingerprint fp)
    | inr c ↦ c
  ]

  contains-ids_of-removed :
      (fp k : String)
      → contains k (ids_of fp removed) ≡ (if id == k then false else contains k (ids_of fp r))
  contains-ids_of-removed fp k = ground (
    arith,
    eq_iff a.fingerprint fp,
    eq_iff id k,
    ids_of-removed fp,
    contains-remove_first id k (ids_of a.fingerprint r) (v.distinct a.fingerprint),
    elsewhere fp,
  )

  removed-IsIndexed : IsIndexed removed
  removed-IsIndexed = record {
    own_id = λ k b eb. ground (arith, lookup-delete id k r.alerts, v.own_id k b);
    listed = λ k b eb.
        ground (
          arith,
          lookup-delete id k r.alerts,
          contains-ids_of-removed b.fingerprint k,
          v.listed k b,
        );
    backed = λ fp k c. elim (Bool-cases (id == k)) [
      | inl own ↦ absurd (ground (arith, contains-ids_of-removed fp k))
      | inr other ↦
          let (b, eb, fb) = v.backed fp k (ground (arith, contains-ids_of-removed fp k)) in
          (b, rw (lookup-delete, other) eb, fb)
    ];
    distinct = λ fp. elim (Bool-cases (a.fingerprint == fp)) [
      | inl same ↦
          rw (ids_of-removed fp, same) (Distinct-remove_first id _ (v.distinct a.fingerprint))
      | inr other ↦ rw (ids_of-removed fp, other) (v.distinct fp)
    ];
  }

-- Deleting a stored alert takes out exactly that alert and keeps the index by fingerprint; deleting
-- one that is not stored is refused.
pub delete-IsIndexed :
    (h : Heap) (id : String) (r : AlertRepository)
    → IsIndexed r
    → ((s : AlertRepository) × (delete_alert h id r ≡ ok s)
        × (s.alerts ≡ delete id r.alerts)
        × IsIndexed s)
      ⊎ ((lookup id r.alerts ≡ none) × (delete_alert h id r ≡ err (sentinel alert_not_found)))
unfolding delete_alert
delete-IsIndexed h id r v = elim (Option-cases (lookup id r.alerts)) [
  | inl n ↦ inr (n, rw (n, delete_alert) refl)
  | inr (a, e) ↦
      let refs = drop_all (read h a.external_references) r.by_external_ref in
      inl (
        removed id a r refs e v,
        rw (e, delete_alert) refl,
        refl,
        removed-IsIndexed id a r refs e v,
      )
]
