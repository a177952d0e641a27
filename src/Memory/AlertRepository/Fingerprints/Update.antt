-- ===== src/Memory/AlertRepository/Fingerprints/Update.antt =====
-- Update keeps the index by fingerprint, if the fingerprint is kept.
use alert_bridge.Base.{
  String, ◌≡◌, refl, ◌⊎◌, inl, inr, true, none, some, arith, ◌==◌, eq_iff, Bool-cases, Option-cases,
  contains,
}
use alert_bridge.Base.Assoc.{Map, lookup, insert, lookup-insert}
use alert_bridge.Base.Heap.{Heap, read}
use alert_bridge.Errors.{ok, err, sentinel, alert_not_found}
use alert_bridge.Entity.Alert.{Alert}
use alert_bridge.Memory.AlertRepository.{AlertRepository, update, drop_changed, add_changed}
use alert_bridge.Memory.AlertRepository.Fingerprints.{ids_of, IsIndexed}

module _ (a existing : Alert) (r : AlertRepository) (refs : Map (Map String))
    (e : lookup a.id r.alerts ≡ some existing) (same : existing.fingerprint ≡ a.fingerprint)
    (v : IsIndexed r) where
  abbrev changed : AlertRepository
  changed = record r { alerts = insert a.id a r.alerts; by_external_ref = refs }

  changed-listed :
      (id : String) (b : Alert)
      → lookup id changed.alerts ≡ some b
      → contains id (ids_of b.fingerprint r) ≡ true
  changed-listed id b eb = ground (
    arith,
    lookup-insert a.id id a r.alerts,
    eq_iff a.id id,
    v.listed id b,
    v.listed a.id existing e,
  )

  changed-backed :
      (fp id : String)
      → contains id (ids_of fp r) ≡ true
      → (b : Alert) × (lookup id changed.alerts ≡ some b) × (b.fingerprint ≡ fp)
  changed-backed fp id c =
      let (b, eb, fb) = v.backed fp id c in
      elim (Bool-cases (a.id == id)) [
        | inl own ↦ (a, rw (lookup-insert, own) refl, ground (arith, eq_iff a.id id))
        | inr other ↦ (b, rw (lookup-insert, other) eb, fb)
      ]

  changed-IsIndexed : IsIndexed changed
  changed-IsIndexed = record {
    own_id =
        λ id b eb. ground (arith, lookup-insert a.id id a r.alerts, eq_iff a.id id, v.own_id id b);
    listed = changed-listed;
    backed = changed-backed;
    distinct = v.distinct;
  }

-- An update of a stored alert that leaves its fingerprint as it was keeps the index by fingerprint;
-- an update of an alert that is not stored is refused.
pub update-IsIndexed :
    (h : Heap) (a : Alert) (r : AlertRepository)
    → IsIndexed r
    → ((b : Alert) → lookup a.id r.alerts ≡ some b → b.fingerprint ≡ a.fingerprint)
    → ((s : AlertRepository) × (update h a r ≡ ok s)
        × (s.alerts ≡ insert a.id a r.alerts)
        × IsIndexed s)
      ⊎ ((lookup a.id r.alerts ≡ none) × (update h a r ≡ err (sentinel alert_not_found)))
unfolding update
update-IsIndexed h a r v keeps = elim (Option-cases (lookup a.id r.alerts)) [
  | inl n ↦ inr (n, rw (n, update) refl)
  | inr (b, e) ↦
      let refs =
        add_changed (read h a.external_references) h b a.id
          (drop_changed (read h b.external_references) h a r.by_external_ref) in
      inl (
        changed a b r refs e (keeps b e) v,
        rw (e, update) refl,
        refl,
        changed-IsIndexed a b r refs e (keeps b e) v,
      )
]
