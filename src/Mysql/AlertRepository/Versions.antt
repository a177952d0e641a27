-- ===== src/Mysql/AlertRepository/Versions.antt =====
-- What the version column guards: two statements of one Update.
use alert_bridge.Base.{
  ℕ, String, ◌≡◌, ◌≢◌, ◌⊎◌, refl, inl, inr, false, Option-cases, none, some, List, eqb, arith,
}
use alert_bridge.Errors.{Result, err, sentinel, not_found, concurrent_update}
use alert_bridge.Base.Heap.{Heap}
use alert_bridge.Entity.Alert.{Alert}
use alert_bridge.Sql.Json.{JsonCodec}
use alert_bridge.Sql.Tables.{row_of}
use alert_bridge.Sql.Versions.{OneRow, any_target-none, any_target-some}
use alert_bridge.Mysql.AlertRepository.{
  AlertRow, row_id, row_version, explain_miss, update_version, update,
}

module _ (c : JsonCodec) (keep : ℕ → ℕ) where
  -- What a miss reports: the table as it is found, and whether the alert is in it.
  abbrev pub IsMiss :
      String → List (AlertRow c.Text) → Result (Unit {0}) × List (AlertRow c.Text) → Type 0
  IsMiss id found result =
      (result.1 ≡ found)
      × (((row_of row_id id found ≡ none) × (result.0 ≡ err (sentinel not_found)))
          ⊎ ((row_of row_id id found ≢ none) × (result.0 ≡ err (sentinel concurrent_update))))

  explain_miss-IsMiss :
      (id : String) (t : List (AlertRow c.Text)) → IsMiss id t (explain_miss c keep id t)
  unfolding explain_miss
  explain_miss-IsMiss id t = elim (Option-cases (row_of row_id id t)) [
    | inl n ↦ rw (n, explain_miss) (refl, inl (refl, refl))
    | inr (r, e) ↦ rw (e, explain_miss) (refl, inr (λ q. ground (arith, q), refl))
  ]

  -- The alert is stored in one row, and between the two statements of an update other clients have
  -- left it in one row of another version, or have deleted it. Then the update writes nothing: the
  -- table is as the other clients leave it. It reports that the alert is not there where the table
  -- has no row of it by then, and a concurrent update where it has one.
  pub update-detects :
      (between later : List (AlertRow c.Text) → List (AlertRow c.Text)) (h : Heap) (a : Alert)
      (t : List (AlertRow c.Text)) (r : AlertRow c.Text)
      → row_of row_id a.id t ≡ some r
      → OneRow row_id row_version a.id (between t)
      → ((q : AlertRow c.Text)
          → row_of row_id a.id (between t) ≡ some q
          → eqb q.version r.version ≡ false)
      → IsMiss a.id (later (between t)) (update c keep between later h a t)
  unfolding update update_version
  update-detects between later h a t r e one moved =
      elim (Option-cases (row_of row_id a.id (between t))) [
        | inl n ↦
            rw (e, update, any_target-none row_id row_version a.id r.version (between t) n)
              (explain_miss-IsMiss a.id (later (between t)))
        | inr (q, f) ↦
            rw
              (
                e,
                update,
                any_target-some row_id row_version a.id r.version (between t) q one f,
                moved q f,
              )
              (explain_miss-IsMiss a.id (later (between t)))
      ]
