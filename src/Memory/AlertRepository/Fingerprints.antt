-- ===== src/Memory/AlertRepository/Fingerprints.antt =====
-- The index by fingerprint: it lists each stored alert once, under the alert's fingerprint.
pub mod Save
pub mod Update
pub mod Delete
pub mod Search
use alert_bridge.Base.{
  ℕ, String, ◌≡◌, refl, sym, ap, ◌∙◌, ◌≢◌, ◌⊎◌, inl, inr, ◌↔◌, Bool, true, false, Option, none,
  some, List, [], ◌∷◌, ◌++◌, arith, ◌==◌, eq_iff, ==-refl, ==_sound, if◌then◌else◌, Bool-cases,
  contains, contains-append, In,
}
use alert_bridge.Base.Assoc.{
  Map, lookup, insert, get_or, lookup-insert, lookup-delete, get_or-insert,
}
use alert_bridge.Base.Heap.{Heap}
use alert_bridge.Errors.{Result, ok, err}
use alert_bridge.Entity.Alert.{Alert}
use alert_bridge.Memory.AlertRepository.{
  AlertRepository, new_alert_repository, save, update, delete_alert, find_by_fingerprint, alerts_of,
  remove_first, unindex, cons_found,
}

abbrev pub Distinct : List String → Type 0
Distinct [] = Unit
Distinct (x ∷ xs) = (contains x xs ≡ false) × Distinct xs

abbrev pub ids_of : String → AlertRepository → List String
ids_of fingerprint r = get_or [] fingerprint r.by_fingerprint

pub record IsIndexed (r : AlertRepository) : Type 0 where
  pub own_id : (id : String) (a : Alert) → lookup id r.alerts ≡ some a → a.id ≡ id
  pub listed :
      (id : String) (a : Alert)
      → lookup id r.alerts ≡ some a
      → contains id (ids_of a.fingerprint r) ≡ true
  pub backed :
      (fingerprint id : String)
      → contains id (ids_of fingerprint r) ≡ true
      → (a : Alert) × (lookup id r.alerts ≡ some a) × (a.fingerprint ≡ fingerprint)
  pub distinct : (fingerprint : String) → Distinct (ids_of fingerprint r)

In-cons_found :
    (o : Option Alert) (found : List Alert) (a : Alert)
    → In a (cons_found o found)
    → (o ≡ some a) ⊎ In a found
In-cons_found none found a i = inr i
In-cons_found (some b) found a (inl e) = inl (ap some (sym e))
In-cons_found (some b) found a (inr i) = inr i

cons_found-In :
    (o : Option Alert) (found : List Alert) (a : Alert) → In a found → In a (cons_found o found)
cons_found-In none found a i = i
cons_found-In (some b) found a i = inr i

pub alerts_of_sound :
    (alerts : Map Alert) (ids : List String) (a : Alert)
    → In a (alerts_of alerts ids)
    → (id : String) × (contains id ids ≡ true) × (lookup id alerts ≡ some a)
unfolding alerts_of
alerts_of_sound alerts [] a i = absurd i
alerts_of_sound alerts (id ∷ ids) a i = elim (In-cons_found (lookup id alerts) _ a i) [
  | inl e ↦ (id, ground (arith, ==-refl id), e)
  | inr j ↦ let (k, c, e) = alerts_of_sound alerts ids a j in (k, ground arith, e)
]

pub alerts_of_complete :
    (alerts : Map Alert) (ids : List String) (id : String) (a : Alert)
    → contains id ids ≡ true
    → lookup id alerts ≡ some a
    → In a (alerts_of alerts ids)
unfolding alerts_of
alerts_of_complete alerts [] id a c e = cc
alerts_of_complete alerts (x ∷ ids) id a c e = elim (Bool-cases (x == id)) [
  | inl h ↦ rw (==_sound x id h, e) (inl refl)
  | inr h ↦
      cons_found-In (lookup x alerts) _ a (alerts_of_complete alerts ids id a (ground arith) e)
]

pub contains-remove_first :
    (id k : String) (xs : List String)
    → Distinct xs
    → contains k (remove_first id xs) ≡ (if id == k then false else contains k xs)
unfolding remove_first
contains-remove_first id k [] d = ground arith
contains-remove_first id k (x ∷ xs) d =
    ground (arith, eq_iff id k, eq_iff x id, eq_iff x k, contains-remove_first id k xs d.1)

pub Distinct-remove_first :
    (id : String) (xs : List String) → Distinct xs → Distinct (remove_first id xs)
unfolding remove_first
Distinct-remove_first id [] d = tt
Distinct-remove_first id (x ∷ xs) d =
    ground (arith, contains-remove_first id x xs d.1, Distinct-remove_first id xs d.1)

pub Distinct-append :
    (xs : List String) (x : String) → Distinct xs → contains x xs ≡ false → Distinct (xs ++ x ∷ [])
Distinct-append [] x d c = (refl, tt)
Distinct-append (y ∷ xs) x d c =
    ground (arith, eq_iff x y, eq_iff y x, contains-append y xs (x ∷ []), Distinct-append xs x d.1)

-- An id with no alert stands under no fingerprint.
pub unlisted :
    (id fp : String) (r : AlertRepository)
    → lookup id r.alerts ≡ none
    → IsIndexed r
    → contains id (ids_of fp r) ≡ false
unlisted id fp r n v = elim (Bool-cases (contains id (ids_of fp r))) [
  | inl c ↦ let (a, e, f) = v.backed fp id c in cc
  | inr c ↦ c
]
