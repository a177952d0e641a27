-- ===== src/Memory/SilenceRepository/Listing.antt =====
-- The operations keep the indexes complete.
use alert_bridge.Base.{
  String, ◌≡◌, refl, ◌≢◌, ◌⊎◌, inl, inr, true, false, none, List, [], ◌∷◌, ◌++◌, arith, ◌==◌,
  eq_iff, Option-cases, contains, contains-append,
}
use alert_bridge.Base.Assoc.{
  Map, lookup, delete, get_or, lookup-insert, lookup-delete, get_or-insert, insert-IsKeyed,
  delete-IsKeyed,
}
use alert_bridge.Errors.{ok, err, sentinel, silence_not_found}
use alert_bridge.Entity.SilenceMark.{SilenceMark}
use alert_bridge.Memory.AlertRepository.{unindex, remove_first}
use alert_bridge.Memory.SilenceRepository.{
  SilenceRepository, save_silence, delete_silence, remove_silence, add_to_index, remove_from_index,
}
use alert_bridge.Memory.SilenceRepository.Matches.{IsListed}

contains-add :
    (key id other k : String) (index : Map (List String))
    → contains k (get_or [] other index) ≡ true
    → contains k (get_or [] other (add_to_index key id index)) ≡ true
unfolding add_to_index
contains-add key id other k index h = ground (
  arith,
  eq_iff key other,
  get_or-insert [] key other (get_or [] key index ++ id ∷ []) index,
  contains-append k (get_or [] key index) (id ∷ []),
)

contains-add_self :
    (key id : String) (index : Map (List String))
    → key ≢ ""
    → contains id (get_or [] key (add_to_index key id index)) ≡ true
unfolding add_to_index
contains-add_self key id index n = ground (
  arith,
  eq_iff key "",
  eq_iff key key,
  eq_iff id id,
  get_or-insert [] key key (get_or [] key index ++ id ∷ []) index,
  contains-append id (get_or [] key index) (id ∷ []),
)

contains-remove_first_other :
    (id k : String) (xs : List String)
    → (id == k) ≡ false
    → contains k xs ≡ true
    → contains k (remove_first id xs) ≡ true
unfolding remove_first
contains-remove_first_other id k [] n c = cc
contains-remove_first_other id k (x ∷ xs) n c =
    ground (arith, eq_iff x id, eq_iff x k, eq_iff id k, contains-remove_first_other id k xs)

contains-remove :
    (key id other k : String) (index : Map (List String))
    → (id == k) ≡ false
    → contains k (get_or [] other index) ≡ true
    → contains k (get_or [] other (remove_from_index key id index)) ≡ true
unfolding remove_from_index unindex
contains-remove key id other k index n h = ground (
  arith,
  eq_iff key other,
  get_or-insert [] key other (remove_first id (get_or [] key index)) index,
  contains-remove_first_other id k (get_or [] key index),
)

-- A saved silence is listed under each of its targets, and no other silence loses its place.
pub save_silence-IsListed :
    (s : SilenceMark) (r : SilenceRepository) → IsListed r → IsListed (save_silence s r)
unfolding save_silence
save_silence-IsListed s r v = record {
  keyed = insert-IsKeyed s.id s r.silences v.keyed;
  under_alert = λ id t e n. ground (
    arith,
    lookup-insert s.id id s r.silences,
    eq_iff s.id id,
    v.under_alert id t,
    contains-add s.alert_id s.id t.alert_id id r.by_alert_id,
    contains-add_self s.alert_id s.id r.by_alert_id,
  );
  under_fingerprint = λ id t e n. ground (
    arith,
    lookup-insert s.id id s r.silences,
    eq_iff s.id id,
    v.under_fingerprint id t,
    contains-add s.fingerprint s.id t.fingerprint id r.by_fingerprint,
    contains-add_self s.fingerprint s.id r.by_fingerprint,
  );
  under_instance = λ id t e n. ground (
    arith,
    lookup-insert s.id id s r.silences,
    eq_iff s.id id,
    v.under_instance id t,
    contains-add s.instance_name s.id t.instance_name id r.by_instance,
    contains-add_self s.instance_name s.id r.by_instance,
  );
}

remove_silence-IsListed :
    (id : String) (s : SilenceMark) (r : SilenceRepository)
    → IsListed r
    → IsListed (remove_silence id s r)
unfolding remove_silence
remove_silence-IsListed id s r v = record {
  keyed = delete-IsKeyed id r.silences v.keyed;
  under_alert = λ k t e n. ground (
    arith,
    lookup-delete id k r.silences,
    v.under_alert k t,
    contains-remove s.alert_id id t.alert_id k r.by_alert_id,
  );
  under_fingerprint = λ k t e n. ground (
    arith,
    lookup-delete id k r.silences,
    v.under_fingerprint k t,
    contains-remove s.fingerprint id t.fingerprint k r.by_fingerprint,
  );
  under_instance = λ k t e n. ground (
    arith,
    lookup-delete id k r.silences,
    v.under_instance k t,
    contains-remove s.instance_name id t.instance_name k r.by_instance,
  );
}

-- Deleting a stored silence takes out that silence alone, and every other keeps its places in the
-- indexes; deleting one that is not stored is refused.
pub delete_silence-IsListed :
    (id : String) (r : SilenceRepository)
    → IsListed r
    → ((t : SilenceRepository) × (delete_silence id r ≡ ok t)
        × (t.silences ≡ delete id r.silences)
        × IsListed t)
      ⊎ ((lookup id r.silences ≡ none) × (delete_silence id r ≡ err (sentinel silence_not_found)))
unfolding delete_silence
delete_silence-IsListed id r v = elim (Option-cases (lookup id r.silences)) [
  | inl n ↦ inr (n, rw (n, delete_silence) refl)
  | inr (s, e) ↦
      inl
        (remove_silence id s r, rw (e, delete_silence) refl, refl, remove_silence-IsListed id s r v)
]
