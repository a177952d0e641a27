-- ===== src/Memory/AlertRepository/SharedReferences/Lost.antt =====
-- A reference that is set on a saved alert does not reach the index.
use alert_bridge.Base.{ℕ, String, ◌≡◌, refl, Option, none, some, arith, ==-refl}
use alert_bridge.Base.Assoc.{IsKeyed, lookup, insert, get_or, lookup-insert, insert-IsKeyed}
use alert_bridge.Base.Heap.{Heap, read, write}
use alert_bridge.Errors.{ok}
use alert_bridge.Entity.Alert.{Alert, get_external_reference, set_external_reference}
use alert_bridge.Entity.Alert.References.{get-set_external_reference}
use alert_bridge.Memory.AlertRepository.{
  AlertRepository, save, update, find_by_id, find_by_external_reference,
}
use alert_bridge.Memory.AlertRepository.SharedReferences.{indexed, update-shared}

set-shared :
    (system reference : String) (now p : ℕ) (a : Alert) (h : Heap)
    → a.external_references ≡ some p
    → set_external_reference system reference now a h
      ≡ (record a { updated_at = now }, write p (insert system reference (h.cells p)) h)
unfolding set_external_reference
set-shared system reference now p a h e = simp (e, set_external_reference)

find-unindexed :
    (system reference : String) (r : AlertRepository)
    → indexed system reference r.by_external_ref ≡ none
    → find_by_external_reference system reference r ≡ none
unfolding find_by_external_reference get_or
find-unindexed system reference r e = ground arith

lookup-save :
    (h : Heap) (a : Alert) (r : AlertRepository) {s : AlertRepository}
    → save h a r ≡ ok s
    → lookup a.id s.alerts ≡ some a
unfolding save
lookup-save h a r e = ground (arith, lookup-insert a.id a.id a r.alerts, ==-refl a.id)

written-IsKeyed :
    (p : ℕ) (system reference : String) (h : Heap)
    → IsKeyed (read h (some p))
    → IsKeyed (read (write p (insert system reference (h.cells p)) h) (some p))
unfolding read write
written-IsKeyed p system reference h k =
    ground (arith, insert-IsKeyed system reference (h.cells p) k)

IsKeyed-at :
    (h : Heap) {refs : Option ℕ} {p : ℕ}
    → refs ≡ some p
    → IsKeyed (read h (some p))
    → IsKeyed (read h refs)
IsKeyed-at h e k = rw e k

-- The alert of a save shares its map with the stored copy. Setting a reference on it and updating
-- succeeds, the stored alert has the reference, and the search by that reference still finds
-- nothing, unless the index had the reference before.
pub saved_reference_lost :
    (h : Heap) (a : Alert) (r : AlertRepository) {s : AlertRepository} (p : ℕ)
    (system reference : String) (now : ℕ)
    → a.external_references ≡ some p
    → IsKeyed (read h (some p))
    → save h a r ≡ ok s
    → indexed system reference s.by_external_ref ≡ none
    → let (a', h') = set_external_reference system reference now a h in
      (t : AlertRepository) × (update h' a' s ≡ ok t)
      × (find_by_id a.id t ≡ some a')
      × (get_external_reference system h' a' ≡ reference)
      × (find_by_external_reference system reference t ≡ none)
unfolding find_by_id
saved_reference_lost h a r {s} p system reference now e k saved lost =
    let a' : Alert = record a { updated_at = now } in
    let h' : Heap = write p (insert system reference (h.cells p)) h in
    let t : AlertRepository = record s { alerts = insert a.id a' s.alerts } in
    let eq : set_external_reference system reference now a h ≡ (a', h') =
      set-shared system reference now p a h e in
    (
      t,
      rw eq (
          update-shared h' a' a s (lookup-save h a r saved) refl
            (IsKeyed-at h' e (written-IsKeyed p system reference h k))),
      rw (eq, lookup-insert, ==-refl a.id) refl,
      rw (get-set_external_reference system system reference now a h, ==-refl system) refl,
      find-unindexed system reference t lost,
    )
