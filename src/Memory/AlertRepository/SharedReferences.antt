-- ===== src/Memory/AlertRepository/SharedReferences.antt =====
-- The index by external reference. `Update` finds the changed references by comparing the map of the
-- stored alert with that of the new one, which are the same map after a `Save` of the same alert.
pub mod Lost
pub mod Moved
use alert_bridge.Base.{
  ℕ, String, ◌≡◌, refl, sym, ap, ◌∙◌, ◌≢◌, ◌⊎◌, inl, inr, Bool, true, false, not, ◌&&◌, Option,
  none, some, List, [], ◌∷◌, arith, ◌==◌, eq_iff, ==-refl, is_set, if◌then◌else◌, Bool-cases,
  Option-cases, In,
}
use alert_bridge.Base.Assoc.{
  Map, IsKeyed, lookup, insert, delete, get_or, lookup-insert, lookup-delete, get_or-insert,
  lookup-In, get_or-present, insert-IsKeyed,
}
use alert_bridge.Base.Heap.{Heap, read}
use alert_bridge.Errors.{Result, ok, err}
use alert_bridge.Entity.Alert.{Alert, get_external_reference, set_external_reference}
use alert_bridge.Memory.AlertRepository.{
  AlertRepository, save, update, find_by_external_reference, put_reference, index_references,
  drop_changed, add_changed,
}

-- What the index holds for a reference.
abbrev pub indexed : String → String → Map (Map String) → Option String
indexed system reference index = lookup reference (get_or [] system index)

indexed-put_reference :
    (s s' r r' id : String) (index : Map (Map String))
    → indexed s r (put_reference s' r' id index)
      ≡ (if (s' == s) && (r' == r) then some id else indexed s r index)
unfolding put_reference
indexed-put_reference s s' r r' id index = ground (
  arith,
  get_or-insert [] s' s (insert r' id (get_or [] s' index)) index,
  lookup-insert r' r id (get_or [] s' index),
  eq_iff s' s,
)

-- Every entry of the list is what the alert reads for its system.
abbrev Agrees : Map String → Heap → Alert → Type 0
Agrees [] h a = Unit
Agrees ((system, reference) ∷ m) h a =
    (get_external_reference system h a ≡ reference) × Agrees m h a

drop_changed-Agrees :
    (m : Map String) (h : Heap) (a : Alert) (index : Map (Map String))
    → Agrees m h a
    → drop_changed m h a index ≡ index
unfolding drop_changed
drop_changed-Agrees [] h a index g = refl
drop_changed-Agrees ((s, r) ∷ m) h a index g =
    rw (g.0, ==-refl r) (drop_changed-Agrees m h a index g.1)

add_changed-Agrees :
    (m : Map String) (h : Heap) (a : Alert) (id : String) (index : Map (Map String))
    → Agrees m h a
    → add_changed m h a id index ≡ index
unfolding add_changed
add_changed-Agrees [] h a id index g = refl
add_changed-Agrees ((s, r) ∷ m) h a id index g =
    rw (g.0, ==-refl r) (add_changed-Agrees m h a id index g.1)

part-Agrees :
    (m full : Map String) (h : Heap) (a : Alert)
    → read h a.external_references ≡ full
    → ((k v : String) → In (k, v) m → lookup k full ≡ some v)
    → Agrees m h a
unfolding get_external_reference
part-Agrees [] full h a e sub = tt
part-Agrees ((k, v) ∷ m) full h a e sub = (
  rw e (get_or-present "" k v full (sub k v (inl refl))),
  part-Agrees m full h a e (λ j w i. sub j w (inr i)),
)

-- The map of an alert agrees with itself, and so with any alert that shares it.
shared-Agrees :
    (h : Heap) (a b : Alert)
    → a.external_references ≡ b.external_references
    → IsKeyed (read h a.external_references)
    → Agrees (read h a.external_references) h b
shared-Agrees h a b e k =
    part-Agrees (read h a.external_references) (read h a.external_references) h b
      (ap (read h) (sym e)) (λ j v. lookup-In j v _ k)

-- An update with an alert whose map is the stored alert's own map writes nothing to the index by
-- external reference, whatever was written to that map before.
pub update-shared :
    (h : Heap) (a stored : Alert) (r : AlertRepository)
    → lookup a.id r.alerts ≡ some stored
    → stored.external_references ≡ a.external_references
    → IsKeyed (read h a.external_references)
    → update h a r ≡ ok (record r { alerts = insert a.id a r.alerts })
unfolding update
update-shared h a stored r e same k =
    rw
      (
        e,
        update,
        drop_changed-Agrees (read h stored.external_references) h a r.by_external_ref
            (shared-Agrees h stored a same (rw same k)),
        add_changed-Agrees (read h a.external_references) h stored a.id r.by_external_ref
            (shared-Agrees h a stored (sym same) k),
      )
      refl
