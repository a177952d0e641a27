-- ===== src/Memory/Examples.antt =====
-- Tests and instances for the in-memory repositories.
use alert_bridge.Base.{
  String, ◌≡◌, refl, ◌↔◌, inl, inr, true, false, none, some, [], ◌∷◌, arith, eq_iff, contains, In,
  Bool-cases, ◌==◌,
}
use alert_bridge.Base.Assoc.{lookup, insert, get_or}
use alert_bridge.Base.Heap.{Heap, read}
use alert_bridge.Errors.{ok}
use alert_bridge.Entity.Alert.{Alert, set_external_reference, get_external_reference}
use alert_bridge.Entity.SilenceMark.{matches_alert}
use alert_bridge.Memory.AlertRepository.{
  AlertRepository, save, update, find_by_id, find_by_fingerprint, find_by_external_reference,
}
use alert_bridge.Memory.AlertRepository.Fingerprints.{Distinct, ids_of, IsIndexed}
use alert_bridge.Memory.AlertRepository.Fingerprints.Search.{find_by_fingerprint_iff}
use alert_bridge.Memory.AlertRepository.Firing.{IsDeduplicated}
use alert_bridge.Memory.AlertRepository.SharedReferences.Lost.{saved_reference_lost}
use alert_bridge.Memory.SilenceRepository.{find_matching_alert}
use alert_bridge.Memory.SilenceRepository.Matches.{IsListed}
use alert_bridge.Memory.SilenceRepository.Search.{find_matching_alert_iff}
use alert_bridge.Samples.{empty_heap, disk_full, one_alert, maintenance, one_silence, no_events}

one_id_Distinct : (fp : String) → Distinct (ids_of fp one_alert)
unfolding get_or lookup
one_id_Distinct fp = elim (Bool-cases ("fp-1" == fp)) [
  | inl c ↦ rw (c) (refl, tt)
  | inr c ↦ rw (c) tt
]

pub one_alert-IsIndexed : IsIndexed one_alert
unfolding lookup get_or
one_alert-IsIndexed = record {
  own_id = λ id a e. ground (arith, eq_iff "a-1" id);
  listed = λ id a e. ground (arith, eq_iff "a-1" id, eq_iff "fp-1" a.fingerprint);
  backed = λ fp id c. (
    disk_full,
    ground (arith, eq_iff "a-1" id, eq_iff "fp-1" fp),
    ground (arith, eq_iff "fp-1" fp),
  );
  distinct = λ fp. one_id_Distinct fp;
}

pub one_alert-IsDeduplicated : IsDeduplicated one_alert
unfolding lookup
one_alert-IsDeduplicated = record {
  indexed = one_alert-IsIndexed;
  one_firing = λ j k a b la lb fa fb q. ground (arith, eq_iff "a-1" j, eq_iff "a-1" k);
}

pub one_silence-IsListed : IsListed one_silence
unfolding lookup get_or
one_silence-IsListed = record {
  keyed = (refl, tt);
  under_alert = λ id s e n. ground (arith, eq_iff "s-1" id);
  under_fingerprint = λ id s e n. ground (arith, eq_iff "s-1" id, eq_iff "fp-2" s.fingerprint);
  under_instance = λ id s e n. ground (arith, eq_iff "s-1" id);
}

abbrev unlinked : Alert
unlinked = record disk_full { external_references = none }

abbrev unlinked_alerts : AlertRepository
unlinked_alerts = record one_alert { alerts = ("a-1", unlinked) ∷ [] }

abbrev renamed : Alert
renamed = record disk_full { summary = "disk nearly full" }

abbrev other_alert : Alert
other_alert = record disk_full { id = "a-3" }

abbrev moved : Alert
moved = record disk_full { external_references = some 5 }

abbrev slack_heap : Heap
slack_heap = record { next = 9; cells = λ p. ("slack", "msg-7") ∷ [] }

keeps_fingerprint :
    (b : Alert) → lookup renamed.id one_alert.alerts ≡ some b → b.fingerprint ≡ renamed.fingerprint
unfolding lookup
keeps_fingerprint b e = ground arith

find_by_fingerprint_iff_example :
    In disk_full (find_by_fingerprint "fp-1" one_alert)
    ↔ ((lookup "a-1" one_alert.alerts ≡ some disk_full) × (disk_full.fingerprint ≡ "fp-1"))
find_by_fingerprint_iff_example =
    find_by_fingerprint_iff "fp-1" disk_full one_alert one_alert-IsIndexed

abbrev with_other : AlertRepository
with_other = record {
  alerts = insert "a-3" other_alert one_alert.alerts;
  by_fingerprint = insert "fp-1" ("a-1" ∷ "a-3" ∷ []) one_alert.by_fingerprint;
  by_external_ref = [];
}

find_matching_alert_iff_example :
    In maintenance (find_matching_alert 100 (record disk_full { fingerprint = "fp-2" }) one_silence)
    ↔ (((id : String) × (lookup id one_silence.silences ≡ some maintenance))
        × (matches_alert 100 (record disk_full { fingerprint = "fp-2" }) maintenance ≡ true))
find_matching_alert_iff_example =
    find_matching_alert_iff 100 (record disk_full { fingerprint = "fp-2" }) one_silence maintenance
      one_silence-IsListed

no_events_fresh : (k : String) → contains "e-1" (get_or [] k no_events.by_alert_id) ≡ false
unfolding get_or lookup
no_events_fresh k = refl

saved_reference_lost_example :
    let (a', h') = set_external_reference "slack" "msg-9" 130 other_alert empty_heap in
    (t : AlertRepository) × (update h' a' with_other ≡ ok t)
    × (find_by_id "a-3" t ≡ some a')
    × (get_external_reference "slack" h' a' ≡ "msg-9")
    × (find_by_external_reference "slack" "msg-9" t ≡ none)
unfolding save read get_or lookup
saved_reference_lost_example =
    saved_reference_lost empty_heap other_alert one_alert 0 "slack" "msg-9" 130 refl tt refl refl
