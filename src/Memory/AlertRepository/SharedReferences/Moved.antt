-- ===== src/Memory/AlertRepository/SharedReferences/Moved.antt =====
-- An update with a map of its own keeps the index.
use alert_bridge.Base.{
  String, ◌≡◌, refl, ap, ◌∙◌, ◌≢◌, inl, inr, not, ◌&&◌, some, [], ◌∷◌, arith, ◌==◌, eq_iff, ==-refl,
  is_set, if◌then◌else◌, In,
}
use alert_bridge.Base.Assoc.{Map, lookup, insert, get_or, lookup-insert}
use alert_bridge.Base.Heap.{Heap, read}
use alert_bridge.Errors.{ok}
use alert_bridge.Entity.Alert.{Alert, get_external_reference}
use alert_bridge.Memory.AlertRepository.{
  AlertRepository, update, find_by_id, find_by_external_reference, put_reference, drop_changed,
  add_changed,
}
use alert_bridge.Memory.AlertRepository.SharedReferences.{indexed, indexed-put_reference}

-- The index has the reference, once any round of the loop has put it there.
add_changed-keeps :
    (m : Map String) (h : Heap) (existing : Alert) (id s r : String) (index : Map (Map String))
    → indexed s r index ≡ some id
    → indexed s r (add_changed m h existing id index) ≡ some id
unfolding add_changed
add_changed-keeps [] h existing id s r index e = e
add_changed-keeps ((s', r') ∷ m) h existing id s r index e =
    add_changed-keeps m h existing id s r _
      (ground (arith, indexed-put_reference s s' r r' id index))

changed_entry :
    (s s' r r' id : String) (index : Map (Map String)) (old : String)
    → s ≡ s'
    → r ≡ r'
    → old ≢ r
    → r ≢ ""
    → indexed s r (if not (r' == old) && is_set r' then put_reference s' r' id index else index)
      ≡ some id
changed_entry s s' r r' id index old es er n f = ground (
  arith,
  eq_iff r' old,
  eq_iff r' "",
  eq_iff s' s,
  eq_iff r' r,
  indexed-put_reference s s' r r' id index,
)

add_changed-adds :
    (m : Map String) (h : Heap) (existing : Alert) (id s r : String) (index : Map (Map String))
    → In (s, r) m
    → get_external_reference s h existing ≢ r
    → r ≢ ""
    → indexed s r (add_changed m h existing id index) ≡ some id
unfolding add_changed
add_changed-adds [] h existing id s r index i n f = absurd i
add_changed-adds ((s', r') ∷ m) h existing id s r index (inr i) n f =
    add_changed-adds m h existing id s r _ i n f
add_changed-adds ((s', r') ∷ m) h existing id s r index (inl e) n f =
    add_changed-keeps m h existing id s r _ (
      changed_entry s s' r r' id index (get_external_reference s' h existing) (ap (λ q. q.0) e)
        (ap (λ q. q.1) e)
        (λ q. n (ap (λ k. get_external_reference k h existing) (ap (λ q. q.0) e) ∙ q)) f)

find-indexed :
    (system reference id : String) (r : AlertRepository)
    → indexed system reference r.by_external_ref ≡ some id
    → find_by_external_reference system reference r ≡ find_by_id id r
unfolding find_by_external_reference get_or find_by_id
find-indexed system reference id r e = ground arith

-- An update with an alert that has a map of its own indexes each of its references that the stored
-- alert does not have: the search by that reference then finds the updated alert.
pub update-indexes :
    (h : Heap) (a existing : Alert) (r : AlertRepository) (system reference : String)
    → lookup a.id r.alerts ≡ some existing
    → In (system, reference) (read h a.external_references)
    → get_external_reference system h existing ≢ reference
    → reference ≢ ""
    → (s : AlertRepository) × (update h a r ≡ ok s)
      × (find_by_external_reference system reference s ≡ some a)
unfolding update find_by_id
update-indexes h a existing r system reference e i n f =
    let dropped = drop_changed (read h existing.external_references) h a r.by_external_ref in
    let s : AlertRepository = record r {
      alerts = insert a.id a r.alerts;
      by_external_ref = add_changed (read h a.external_references) h existing a.id dropped;
    } in
    (
      s,
      rw (e, update) refl,
      find-indexed system reference a.id s (
            add_changed-adds (read h a.external_references) h existing a.id system reference dropped
              i n f)
          ∙ rw (lookup-insert, ==-refl a.id) refl,
    )
