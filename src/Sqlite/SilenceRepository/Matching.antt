-- ===== src/Sqlite/SilenceRepository/Matching.antt =====
-- The search in two stages, by the times in the query and then by MatchesAlert, against one scan.
use alert_bridge.Base.{
  ℕ, ◌≡◌, ◌≤◌, refl, sym, ap, ◌∙◌, inl, inr, Bool, true, false, ◌&&◌, Bool-cases, List, [], ◌∷◌,
  arith, filter, map, leb,
}
use alert_bridge.Entity.Alert.{Alert}
use alert_bridge.Entity.SilenceMark.{matches_alert}
use alert_bridge.Entity.SilenceMark.Matching.{matches_alert_iff}
use alert_bridge.Sql.Json.{JsonCodec}
use alert_bridge.Sqlite.SilenceRepository.{
  SilenceRow, is_current, scan_silence, scan_silences, find_matching_alert,
}

and_false : (b : Bool) → (b && false) ≡ false
and_false true = refl
and_false false = refl

module _ (c : JsonCodec) where
  -- The query's test, for a row whose silence matches later.
  is_current-matching :
      (now later : ℕ) (a : Alert) (r : SilenceRow c.Text)
      → now ≤ later
      → matches_alert later a (scan_silence c r) ≡ true
      → is_current now r ≡ leb (scan_silence c r).start_at now
  unfolding is_current scan_silence
  is_current-matching now later a r h m =
      let times = (matches_alert_iff later a (scan_silence c r)).0 m in
      ground (arith, times.0, times.1)

  stages :
      (now later : ℕ) (a : Alert) (t : List (SilenceRow c.Text))
      → now ≤ later
      → filter (matches_alert later a) (map (scan_silence c) (filter (is_current now) t))
        ≡ filter (λ s. leb s.start_at now && matches_alert later a s) (map (scan_silence c) t)
  stages now later a [] h = refl
  stages now later a (r ∷ t) h = elim (Bool-cases (matches_alert later a (scan_silence c r))) [
    | inl m ↦ elim (Bool-cases (is_current now r)) [
      | inl i ↦
          rw (i, m, sym (is_current-matching now later a r h m) ∙ i)
            (ap (λ l. scan_silence c r ∷ l) (stages now later a t h))
      | inr i ↦ rw (i, sym (is_current-matching now later a r h m) ∙ i) (stages now later a t h)
    ]
    | inr m ↦ elim (Bool-cases (is_current now r)) [
      | inl i ↦ rw (i, m, and_false (leb (scan_silence c r).start_at now)) (stages now later a t h)
      | inr i ↦ rw (i, m, and_false (leb (scan_silence c r).start_at now)) (stages now later a t h)
    ]
  ]

  -- The search through the query finds, in their order, exactly the stored silences that a scan of
  -- all rows by MatchesAlert finds, but for those that start after the query has read the clock.
  pub find_matching_alert-eq-scan :
      (now later : ℕ) (a : Alert) (t : List (SilenceRow c.Text))
      → now ≤ later
      → find_matching_alert c now later a t
        ≡ filter (λ s. leb s.start_at now && matches_alert later a s) (scan_silences c t)
  unfolding find_matching_alert scan_silences
  find_matching_alert-eq-scan now later a t h = stages now later a t h
