-- ===== src/Mysql/AlertRepository/LostUpdates.antt =====
-- What the version column does not guard: an update does not carry the version that its caller read.
use mathlib.Core.Path.{subst}
use alert_bridge.Base.{ℕ, ◌+◌, ◌≡◌, refl, sym, ap, ◌∙◌, some, List, eqb_refl}
use alert_bridge.Base.Heap.{Heap}
use alert_bridge.Entity.Alert.{Alert}
use alert_bridge.Errors.{Result, ok}
use alert_bridge.Sql.Json.{JsonCodec}
use alert_bridge.Sql.Tables.{row_of}
use alert_bridge.Sql.Versions.{
  OneRow, update_where, any_target-some, update_where-OneRow, row_of-updated,
}
use alert_bridge.Mysql.AlertRepository.{
  AlertRow, row_id, row_version, to_row, set_columns, update_version, update,
}

module _ (c : JsonCodec) (keep : ℕ → ℕ) where
  set_columns-id :
      (h : Heap) (a : Alert) (r : AlertRow c.Text) → (set_columns c keep h a r).id ≡ r.id
  unfolding set_columns
  set_columns-id h a r = refl

  -- An update that no other client comes between.
  abbrev pub alone :
      Heap → Alert → List (AlertRow c.Text) → Result (Unit {0}) × List (AlertRow c.Text)
  alone h a t = update c keep (λ t. t) (λ t. t) h a t

  alone_writes :
      (h : Heap) (a : Alert) (t : List (AlertRow c.Text)) (r : AlertRow c.Text)
      → OneRow row_id row_version a.id t
      → row_of row_id a.id t ≡ some r
      → alone h a t
        ≡ (ok tt, update_where row_id row_version (set_columns c keep h a) a.id r.version t)
  unfolding update update_version
  alone_writes h a t r o e =
      rw (e, update, any_target-some row_id row_version a.id r.version t r o e, eqb_refl r.version)
        refl

  alone_lem :
      (h : Heap) (a : Alert) (t : List (AlertRow c.Text)) (r : AlertRow c.Text)
      → OneRow row_id row_version a.id t
      → row_of row_id a.id t ≡ some r
      → ((alone h a t).0 ≡ ok tt)
        × OneRow row_id row_version a.id (alone h a t).1
        × (row_of row_id a.id (alone h a t).1 ≡ some (set_columns c keep h a r))
  alone_lem h a t r o e = rw (alone_writes h a t r o e) (
    refl,
    update_where-OneRow row_id row_version (set_columns c keep h a) (set_columns-id h a) a.id
        r.version a.id t o,
    row_of-updated row_id row_version (set_columns c keep h a) (set_columns-id h a) a.id r.version t
        r e refl,
  )

  -- An alert is stored in one row, and two callers that have loaded it, at whatever time, update it one
  -- after the other, with no other client between the statements of an update. Both updates succeed,
  -- and the stored row is that of the second: nothing of the first is left but the step of the
  -- version, and no caller is told of a concurrent update.
  pub stale_update_wins :
      (h : Heap) (a b : Alert) (t : List (AlertRow c.Text)) (r : AlertRow c.Text)
      → b.id ≡ a.id
      → OneRow row_id row_version a.id t
      → row_of row_id a.id t ≡ some r
      → ((alone h a t).0 ≡ ok tt)
        × ((alone h b (alone h a t).1).0 ≡ ok tt)
        × (row_of row_id a.id (alone h b (alone h a t).1).1
            ≡ some (record (to_row c keep h b) {
              id = r.id;
              version = r.version + 1 + 1;
              created_at = r.created_at;
            }))
  unfolding set_columns
  stale_update_wins h a b t r e o f =
      let (first, one, row) = alone_lem h a t r o f in
      let (second, _, latest) =
        alone_lem h b (alone h a t).1 (set_columns c keep h a r)
          (subst (λ id. OneRow row_id row_version id (alone h a t).1) (sym e) one)
          (ap (λ id. row_of row_id id (alone h a t).1) e ∙ row) in
      (first, second, ap (λ id. row_of row_id id (alone h b (alone h a t).1).1) (sym e) ∙ latest)
