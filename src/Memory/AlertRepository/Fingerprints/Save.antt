-- ===== src/Memory/AlertRepository/Fingerprints/Save.antt =====
-- Save keeps the index by fingerprint.
use alert_bridge.Base.{
  String, ◌≡◌, refl, ◌⊎◌, inl, inr, true, none, some, [], ◌∷◌, ◌++◌, arith, ◌==◌, eq_iff,
  if◌then◌else◌, Bool-cases, Option-cases, contains, contains-append,
}
use alert_bridge.Base.Assoc.{Map, lookup, insert, lookup-insert, get_or-insert}
use alert_bridge.Base.Heap.{Heap, read}
use alert_bridge.Errors.{ok, err, sentinel, duplicate_alert}
use alert_bridge.Entity.Alert.{Alert}
use alert_bridge.Memory.AlertRepository.{AlertRepository, save, index_references}
use alert_bridge.Memory.AlertRepository.Fingerprints.{
  Distinct, ids_of, IsIndexed, unlisted, Distinct-append,
}

module _ (a : Alert) (r : AlertRepository) (refs : Map (Map String))
    (n : lookup a.id r.alerts ≡ none) (v : IsIndexed r) where
  abbrev added : AlertRepository
  added = record {
    alerts = insert a.id a r.alerts;
    by_fingerprint = insert a.fingerprint (ids_of a.fingerprint r ++ a.id ∷ []) r.by_fingerprint;
    by_external_ref = refs;
  }

  ids_of-added :
      (fp : String)
      → ids_of fp added
        ≡ (if a.fingerprint == fp then ids_of a.fingerprint r ++ a.id ∷ [] else ids_of fp r)
  ids_of-added fp = get_or-insert [] a.fingerprint fp _ r.by_fingerprint

  added-listed :
      (id : String) (b : Alert)
      → lookup id added.alerts ≡ some b
      → contains id (ids_of b.fingerprint added) ≡ true
  added-listed id b e = ground (
    arith,
    lookup-insert a.id id a r.alerts,
    eq_iff a.id id,
    eq_iff a.fingerprint b.fingerprint,
    ids_of-added b.fingerprint,
    contains-append id (ids_of a.fingerprint r) (a.id ∷ []),
    v.listed id b,
  )

  added-backed :
      (fp id : String)
      → contains id (ids_of fp added) ≡ true
      → (b : Alert) × (lookup id added.alerts ≡ some b) × (b.fingerprint ≡ fp)
  added-backed fp id c = elim (Bool-cases (a.id == id)) [
    | inl same ↦ (
      a,
      rw (lookup-insert, same) refl,
      ground
          (arith, eq_iff a.fingerprint fp, eq_iff a.id id, ids_of-added fp, unlisted a.id fp r n v),
    )
    | inr other ↦
        let (b, e, f) = v.backed fp id (
          ground (
            arith,
            eq_iff a.fingerprint fp,
            ids_of-added fp,
            contains-append id (ids_of a.fingerprint r) (a.id ∷ []),
          )) in
        (b, rw (lookup-insert, other) e, f)
  ]

  added-Distinct : (fp : String) → Distinct (ids_of fp added)
  added-Distinct fp = elim (Bool-cases (a.fingerprint == fp)) [
    | inl same ↦
        rw (ids_of-added fp, same)
          (Distinct-append _ a.id (v.distinct a.fingerprint) (unlisted a.id a.fingerprint r n v))
    | inr other ↦ rw (ids_of-added fp, other) (v.distinct fp)
  ]

  added-IsIndexed : IsIndexed added
  added-IsIndexed = record {
    own_id =
        λ id b e. ground (arith, lookup-insert a.id id a r.alerts, eq_iff a.id id, v.own_id id b);
    listed = added-listed;
    backed = added-backed;
    distinct = added-Distinct;
  }

-- A save that succeeds had no alert of that id before it, and keeps the index by fingerprint; one
-- of an id that is there is refused as a duplicate.
pub save-IsIndexed :
    (h : Heap) (a : Alert) (r : AlertRepository)
    → IsIndexed r
    → ((s : AlertRepository) × (save h a r ≡ ok s)
        × (lookup a.id r.alerts ≡ none)
        × (s.alerts ≡ insert a.id a r.alerts)
        × IsIndexed s)
      ⊎ (((b : Alert) × (lookup a.id r.alerts ≡ some b))
          × (save h a r ≡ err (sentinel duplicate_alert)))
unfolding save
save-IsIndexed h a r v = elim (Option-cases (lookup a.id r.alerts)) [
  | inl n ↦
      let refs = index_references (read h a.external_references) a.id r.by_external_ref in
      inl (added a r refs n v, rw (n, save) refl, n, refl, added-IsIndexed a r refs n v)
  | inr (b, e) ↦ inr ((b, e), rw (e, save) refl)
]
