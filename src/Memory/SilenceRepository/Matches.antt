-- ===== src/Memory/SilenceRepository/Matches.antt =====
-- The search through the indexes finds what a scan of all silences would find.
use alert_bridge.Base.{
  ℕ, String, ◌≡◌, refl, sym, ap, ◌∙◌, ◌≢◌, ◌⊎◌, inl, inr, true, not, ◌&&◌, Option, none, some, List,
  [], ◌∷◌, ◌++◌, arith, ◌==◌, ==_sound, Bool-cases, contains, In, In-append, In-append_left,
  In-append_right,
}
use alert_bridge.Base.Assoc.{Map, IsKeyed, lookup, get_or, lookup_unique}
use alert_bridge.Entity.Alert.{Alert}
use alert_bridge.Entity.SilenceMark.{SilenceMark, matches_alert}
use alert_bridge.Memory.SilenceRepository.{
  SilenceRepository, Found, visit, visit_ids, visit_label_only, is_label_only,
}

-- Each silence stands in the index of each of its targets that is set.
pub record IsListed (r : SilenceRepository) : Type 0 where
  pub keyed : IsKeyed r.silences
  pub under_alert :
      (id : String) (s : SilenceMark)
      → lookup id r.silences ≡ some s
      → s.alert_id ≢ ""
      → contains id (get_or [] s.alert_id r.by_alert_id) ≡ true
  pub under_fingerprint :
      (id : String) (s : SilenceMark)
      → lookup id r.silences ≡ some s
      → s.fingerprint ≢ ""
      → contains id (get_or [] s.fingerprint r.by_fingerprint) ≡ true
  pub under_instance :
      (id : String) (s : SilenceMark)
      → lookup id r.silences ≡ some s
      → s.instance_name ≢ ""
      → contains id (get_or [] s.instance_name r.by_instance) ≡ true

-- What holds of the search at every moment: what was found is stored and matches, and every id that
-- was seen has its silence among the found.
module _ (now : ℕ) (a : Alert) (silences : Map SilenceMark) where
  pub record IsHonest (f : Found) : Type 0 where
    pub genuine :
        (s : SilenceMark)
        → In s f.found
        → ((id : String) × (lookup id silences ≡ some s)) × (matches_alert now a s ≡ true)
    pub covered :
        (id : String) (s : SilenceMark)
        → contains id f.seen ≡ true
        → lookup id silences ≡ some s
        → In s f.found

  -- The last to be found, or found before.
  In-last : (s t : SilenceMark) (xs : List SilenceMark) → In t (xs ++ s ∷ []) → In t xs ⊎ (t ≡ s)
  In-last s t xs i = elim (In-append t xs (s ∷ []) i) [
    | inl j ↦ inl j
    | inr (inl e) ↦ inr e
    | inr (inr n) ↦ absurd n
  ]

  taken-IsHonest :
      (id : String) (s : SilenceMark) (f : Found)
      → lookup id silences ≡ some s
      → matches_alert now a s ≡ true
      → IsHonest f
      → IsHonest (record { found = f.found ++ s ∷ []; seen = id ∷ f.seen })
  taken-IsHonest id s f e m h = record {
    genuine = λ t i. elim (In-last s t f.found i) [
      | inl j ↦ h.genuine t j
      | inr q ↦ ((id, e ∙ ap some (sym q)), ap (matches_alert now a) q ∙ m)
    ];
    covered = λ k t c l. elim (Bool-cases (id == k)) [
      | inl same ↦
          In-append_right t f.found (s ∷ []) (inl (lookup_unique id k s t silences same e l))
      | inr other ↦ In-append_left t f.found (s ∷ []) (h.covered k t (ground arith) l)
    ];
  }

  visit-IsHonest :
      (id : String) (o : Option SilenceMark) (f : Found)
      → lookup id silences ≡ o
      → IsHonest f
      → IsHonest (visit now a id o f)
  unfolding visit
  visit-IsHonest id none f e h = h
  visit-IsHonest id (some s) f e h =
      elim (Bool-cases (matches_alert now a s && not (contains id f.seen))) [
        | inl c ↦ rw (c, visit) (taken-IsHonest id s f e (ground arith) h)
        | inr c ↦ rw (c, visit) h
      ]

  visit-grows :
      (id : String) (o : Option SilenceMark) (f : Found) (t : SilenceMark)
      → In t f.found
      → In t (visit now a id o f).found
  unfolding visit
  visit-grows id none f t i = i
  visit-grows id (some s) f t i =
      elim (Bool-cases (matches_alert now a s && not (contains id f.seen))) [
        | inl c ↦ rw (c, visit) (In-append_left t f.found (s ∷ []) i)
        | inr c ↦ rw (c, visit) i
      ]

  visit-takes :
      (id : String) (s : SilenceMark) (f : Found)
      → lookup id silences ≡ some s
      → matches_alert now a s ≡ true
      → IsHonest f
      → In s (visit now a id (some s) f).found
  unfolding visit
  visit-takes id s f e m h = elim (Bool-cases (contains id f.seen)) [
    | inl c ↦ visit-grows id (some s) f s (h.covered id s c e)
    | inr c ↦ rw (m, c, visit) (In-append_right s f.found (s ∷ []) (inl refl))
  ]

  pub visit_ids-IsHonest :
      (ids : List String) (f : Found) → IsHonest f → IsHonest (visit_ids now a silences ids f)
  unfolding visit_ids
  visit_ids-IsHonest [] f h = h
  visit_ids-IsHonest (id ∷ ids) f h =
      visit_ids-IsHonest ids _ (visit-IsHonest id (lookup id silences) f refl h)

  pub visit_ids-grows :
      (ids : List String) (f : Found) (t : SilenceMark)
      → In t f.found
      → In t (visit_ids now a silences ids f).found
  unfolding visit_ids
  visit_ids-grows [] f t i = i
  visit_ids-grows (id ∷ ids) f t i =
      visit_ids-grows ids _ t (visit-grows id (lookup id silences) f t i)

  pub visit_ids-takes :
      (ids : List String) (id : String) (s : SilenceMark) (f : Found)
      → contains id ids ≡ true
      → lookup id silences ≡ some s
      → matches_alert now a s ≡ true
      → IsHonest f
      → In s (visit_ids now a silences ids f).found
  unfolding visit_ids
  visit_ids-takes [] id s f c e m h = cc
  visit_ids-takes (k ∷ ids) id s f c e m h = elim (Bool-cases (k == id)) [
    | inl same ↦ visit_ids-grows ids _ s (rw (==_sound k id same, e) (visit-takes id s f e m h))
    | inr other ↦
        visit_ids-takes ids id s _ (ground arith) e m
          (visit-IsHonest k (lookup k silences) f refl h)
  ]

  -- Every entry of the range is an entry of the map.
  abbrev pub Entries : Map SilenceMark → Type 0
  Entries [] = Unit
  Entries ((id, s) ∷ m) = (lookup id silences ≡ some s) × Entries m

  pub label_only-IsHonest :
      (m : Map SilenceMark) (f : Found)
      → Entries m
      → IsHonest f
      → IsHonest (visit_label_only now a m f)
  unfolding visit_label_only
  label_only-IsHonest [] f g h = h
  label_only-IsHonest ((id, s) ∷ m) f g h = elim (Bool-cases (is_label_only s)) [
    | inl c ↦
        rw (c, visit_label_only) (label_only-IsHonest m _ g.1 (visit-IsHonest id (some s) f g.0 h))
    | inr c ↦ rw (c, visit_label_only) (label_only-IsHonest m f g.1 h)
  ]

  pub label_only-grows :
      (m : Map SilenceMark) (f : Found) (t : SilenceMark)
      → In t f.found
      → In t (visit_label_only now a m f).found
  unfolding visit_label_only
  label_only-grows [] f t i = i
  label_only-grows ((id, s) ∷ m) f t i = elim (Bool-cases (is_label_only s)) [
    | inl c ↦ rw (c, visit_label_only) (label_only-grows m _ t (visit-grows id (some s) f t i))
    | inr c ↦ rw (c, visit_label_only) (label_only-grows m f t i)
  ]

  pub label_only-takes :
      (m : Map SilenceMark) (id : String) (s : SilenceMark) (f : Found)
      → Entries m
      → In (id, s) m
      → is_label_only s ≡ true
      → matches_alert now a s ≡ true
      → IsHonest f
      → In s (visit_label_only now a m f).found
  unfolding visit_label_only
  label_only-takes [] id s f g i l e h = absurd i
  label_only-takes ((k, t) ∷ m) id s f g (inl q) l e h =
      let qt : s ≡ t = ap (λ p. p.1) q in
      rw (← qt, visit_label_only, l)
        (label_only-grows m _ s (visit-takes k s f (g.0 ∙ ap some (sym qt)) e h))
  label_only-takes ((k, t) ∷ m) id s f g (inr i) l e h = elim (Bool-cases (is_label_only t)) [
    | inl c ↦
        rw (c, visit_label_only)
          (label_only-takes m id s _ g.1 i l e (visit-IsHonest k (some t) f g.0 h))
    | inr c ↦ rw (c, visit_label_only) (label_only-takes m id s f g.1 i l e h)
  ]

  pub IsHonest-empty : IsHonest (record { found = []; seen = [] })
  IsHonest-empty = record { genuine = λ s i. absurd i; covered = λ id s c l. cc }
