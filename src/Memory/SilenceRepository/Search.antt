-- ===== src/Memory/SilenceRepository/Search.antt =====
-- FindMatchingAlert against a scan of all silences.
use alert_bridge.Base.{ℕ, String, ◌≡◌, refl, inl, inr, ◌↔◌, true, some, [], ◌∷◌, arith, eq_iff, In}
use alert_bridge.Base.Assoc.{Map, lookup, get_or, In-lookup, lookup-In}
use alert_bridge.Entity.Alert.{Alert}
use alert_bridge.Entity.SilenceMark.{SilenceMark, matches_alert}
use alert_bridge.Entity.SilenceMark.Matching.{Targets, matches_alert_iff}
use alert_bridge.Memory.SilenceRepository.{
  SilenceRepository, Found, visit_ids, visit_label_only, is_label_only, find_matching_alert,
}
use alert_bridge.Memory.SilenceRepository.Matches.{
  IsListed, IsHonest, Entries, IsHonest-empty, visit_ids-IsHonest, visit_ids-grows, visit_ids-takes,
  label_only-IsHonest, label_only-grows, label_only-takes,
}

part-Entries :
    (now : ℕ) (a : Alert) (full m : Map SilenceMark)
    → ((k : String) (s : SilenceMark) → In (k, s) m → lookup k full ≡ some s)
    → Entries now a full m
part-Entries now a full [] sub = tt
part-Entries now a full ((k, s) ∷ m) sub =
    (sub k s (inl refl), part-Entries now a full m (λ j t i. sub j t (inr i)))

module _ (now : ℕ) (a : Alert) (r : SilenceRepository) (v : IsListed r) where
  abbrev by_alert : Found
  by_alert =
      visit_ids now a r.silences (get_or [] a.id r.by_alert_id) (record { found = []; seen = [] })

  abbrev by_fp : Found
  by_fp = visit_ids now a r.silences (get_or [] a.fingerprint r.by_fingerprint) by_alert

  abbrev by_inst : Found
  by_inst = visit_ids now a r.silences (get_or [] a.instance_name r.by_instance) by_fp

  all-Entries : Entries now a r.silences r.silences
  all-Entries = part-Entries now a r.silences r.silences (λ k s. lookup-In k s r.silences v.keyed)

  IsHonest-start : IsHonest now a r.silences (record { found = []; seen = [] })
  IsHonest-start = IsHonest-empty now a r.silences

  by_alert-IsHonest : IsHonest now a r.silences by_alert
  by_alert-IsHonest = visit_ids-IsHonest now a r.silences _ _ IsHonest-start

  by_fp-IsHonest : IsHonest now a r.silences by_fp
  by_fp-IsHonest = visit_ids-IsHonest now a r.silences _ _ by_alert-IsHonest

  by_inst-IsHonest : IsHonest now a r.silences by_inst
  by_inst-IsHonest = visit_ids-IsHonest now a r.silences _ _ by_fp-IsHonest

  -- What one of the first three loops takes is in the result.
  kept :
      (s : SilenceMark)
      → In s by_inst.found
      → In s (visit_label_only now a r.silences by_inst).found
  kept s i = label_only-grows now a r.silences r.silences by_inst s i

  label_only_of_targets :
      (s : SilenceMark)
      → s.alert_id ≡ ""
      → s.fingerprint ≡ ""
      → s.instance_name ≡ ""
      → is_label_only s ≡ true
  unfolding is_label_only
  label_only_of_targets s i f n =
      ground (arith, eq_iff s.alert_id "", eq_iff s.fingerprint "", eq_iff s.instance_name "")

  complete :
      (id : String) (s : SilenceMark)
      → lookup id r.silences ≡ some s
      → matches_alert now a s ≡ true
      → Targets s a
      → In s (find_matching_alert now a r)
  unfolding find_matching_alert
  complete id s e m (inl (n, q)) = kept s (
      visit_ids-grows now a r.silences (get_or [] a.instance_name r.by_instance) by_fp s (
        visit_ids-grows now a r.silences (get_or [] a.fingerprint r.by_fingerprint) by_alert s (
          visit_ids-takes now a r.silences (get_or [] a.id r.by_alert_id) id s _
            (rw (← q) (v.under_alert id s e n)) e m IsHonest-start)))
  complete id s e m (inr (inl (n, q))) = kept s (
      visit_ids-grows now a r.silences (get_or [] a.instance_name r.by_instance) by_fp s (
        visit_ids-takes now a r.silences (get_or [] a.fingerprint r.by_fingerprint) id s by_alert
          (rw (← q) (v.under_fingerprint id s e n)) e m by_alert-IsHonest))
  complete id s e m (inr (inr (inl (n, q, l)))) = kept s (
      visit_ids-takes now a r.silences (get_or [] a.instance_name r.by_instance) id s by_fp
        (rw (← q) (v.under_instance id s e n)) e m by_fp-IsHonest)
  complete id s e m (inr (inr (inr (i, f, n, l, g)))) =
      label_only-takes now a r.silences r.silences id s by_inst all-Entries
        (In-lookup id s r.silences e) (label_only_of_targets s i f n) m by_inst-IsHonest

-- In a repository whose indexes list every silence under its targets, the search through the indexes
-- finds exactly the stored silences that match the alert.
pub find_matching_alert_iff :
    (now : ℕ) (a : Alert) (r : SilenceRepository) (s : SilenceMark)
    → IsListed r
    → In s (find_matching_alert now a r)
      ↔ (((id : String) × (lookup id r.silences ≡ some s)) × (matches_alert now a s ≡ true))
unfolding find_matching_alert
find_matching_alert_iff now a r s v = (
  (label_only-IsHonest now a r.silences r.silences (by_inst now a r v) (all-Entries now a r v)
        (by_inst-IsHonest now a r v)).genuine
      s,
  λ ((id, e), m). complete now a r v id s e m ((matches_alert_iff now a s).0 m).2,
)
