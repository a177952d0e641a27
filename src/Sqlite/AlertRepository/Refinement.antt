-- ===== src/Sqlite/AlertRepository/Refinement.antt =====
-- The repository as an implementation of the abstract store.
use mathlib.Core.Path.{fun_ext}
use alert_bridge.Base.{
  String, ◌≡◌, refl, sym, ap, ◌∙◌, inl, inr, Bool-cases, Option-cases, Option, none, some, List, [],
  ◌∷◌, ◌++◌, arith, eq_iff, ◌==◌,
}
use alert_bridge.Base.Heap.{Heap, read, make, write}
use alert_bridge.Entity.Alert.{Alert}
use alert_bridge.Errors.{ok}
use alert_bridge.Sql.Json.{JsonCodec}
use alert_bridge.Sql.Tables.{
  row_of, map_option, or_first, row_of-append, row_of-key, row_of-delete_rows, row_of-update_rows,
  delete_rows, update_rows,
}
use alert_bridge.Sqlite.AlertRepository.{
  AlertRow, row_id, to_row, load, set_columns, save, update, delete_alert, find_by_id, scan_alert,
}
use alert_bridge.Sqlite.AlertRepository.Contents.{
  content, Content, contents, put, remove, created_when, saved, updated, deleted, map_result,
  load-to_row,
}

or_first-none : {A : Type 0} (x : Option A) → or_first x none ≡ x
or_first-none none = refl
or_first-none (some a) = refl

module _ (c : JsonCodec) where
  to_row-id : (h : Heap) (a : Alert) → (to_row c h a).id ≡ a.id
  unfolding to_row
  to_row-id h a = refl

  contents-append :
      (h : Heap) (a : Alert) (t : List (AlertRow c.Text)) (k : String)
      → row_of row_id a.id t ≡ none
      → contents c (t ++ to_row c h a ∷ []) k ≡ put a.id (content h a) (contents c t) k
  unfolding to_row
  contents-append h a t k n = elim (Bool-cases (a.id == k)) [
    | inl q ↦
        let m = ap (λ j. row_of row_id j t) (sym ((eq_iff a.id k).0 q)) ∙ n in
        rw (row_of-append row_id k t (to_row c h a), to_row-id h a, q, m, or_first, map_option)
          (ap some (load-to_row c h a))
    | inr q ↦
        rw (row_of-append row_id k t (to_row c h a), to_row-id h a, q)
          (ap (map_option (load c)) (or_first-none (row_of row_id k t)))
  ]

  pub save-refines :
      (h : Heap) (a : Alert) (t : List (AlertRow c.Text))
      → map_result (contents c) (save c h a t) ≡ saved a.id (content h a) (contents c t)
  unfolding save
  save-refines h a t = elim (Option-cases (row_of row_id a.id t)) [
    | inl n ↦ rw (n, save, saved, map_result) (ap ok (fun_ext (λ k. contents-append h a t k n)))
    | inr (r, e) ↦ rw (e, save, saved, map_result) refl
  ]

  pub load-set_columns :
      (h : Heap) (a : Alert) (r : AlertRow c.Text)
      → r.id ≡ a.id
      → load c (set_columns c h a r) ≡ created_when (load c r) (content h a)
  unfolding set_columns load to_row
  load-set_columns h a r e = rw (e) (ap (created_when (load c r)) (load-to_row c h a))

  pub set_columns-id :
      (h : Heap) (a : Alert) (r : AlertRow c.Text) → (set_columns c h a r).id ≡ r.id
  unfolding set_columns
  set_columns-id h a r = refl

  contents-update :
      (h : Heap) (a : Alert) (t : List (AlertRow c.Text)) (r : AlertRow c.Text) (k : String)
      → row_of row_id a.id t ≡ some r
      → contents c (update_rows row_id a.id (set_columns c h a) t) k
        ≡ put a.id (created_when (load c r) (content h a)) (contents c t) k
  contents-update h a t r k e =
      let law = row_of-update_rows row_id a.id k (set_columns c h a) t (set_columns-id h a) in
      elim (Bool-cases (a.id == k)) [
        | inl q ↦
            let m = ap (λ j. row_of row_id j t) (sym ((eq_iff a.id k).0 q)) ∙ e in
            rw (law, q, m, map_option)
              (ap some (load-set_columns h a r (row_of-key row_id a.id t r e)))
        | inr q ↦ rw (law, q) refl
      ]

  contents-delete :
      (id k : String) (t : List (AlertRow c.Text))
      → contents c (delete_rows row_id id t) k ≡ remove id (contents c t) k
  contents-delete id k t = elim (Bool-cases (id == k)) [
    | inl q ↦ rw (row_of-delete_rows row_id id k t, q) refl
    | inr q ↦ rw (row_of-delete_rows row_id id k t, q) refl
  ]

  pub update-refines :
      (h : Heap) (a : Alert) (t : List (AlertRow c.Text))
      → map_result (contents c) (update c h a t) ≡ updated a.id (content h a) (contents c t)
  unfolding update
  update-refines h a t = elim (Option-cases (row_of row_id a.id t)) [
    | inl n ↦ rw (n, update, updated, map_result) refl
    | inr (r, e) ↦
        rw (e, update, updated, map_result) (ap ok (fun_ext (λ k. contents-update h a t r k e)))
  ]

  pub delete-refines :
      (id : String) (t : List (AlertRow c.Text))
      → map_result (contents c) (delete_alert c id t) ≡ deleted id (contents c t)
  unfolding delete_alert
  delete-refines id t = elim (Option-cases (row_of row_id id t)) [
    | inl n ↦ rw (n, delete_alert, deleted, map_result) refl
    | inr (r, e) ↦
        rw (e, delete_alert, deleted, map_result) (ap ok (fun_ext (λ k. contents-delete id k t)))
  ]

  -- A scanned row by value.
  abbrev pub by_value : Heap → Alert → Content
  by_value h b = (record b { external_references = none }, read h b.external_references)

  pub scan_alert-by_value :
      (r : AlertRow c.Text) (h : Heap)
      → by_value (scan_alert c r h).1 (scan_alert c r h).0 ≡ load c r
  unfolding scan_alert read make write load
  scan_alert-by_value r h = ground arith

  -- Save, Update and Delete do to the alerts that the table stands for exactly what the abstract
  -- store does, errors included, and FindByID gives the alert of the abstract store: a duplicate is
  -- refused, an update keeps the time of creation, and nothing but whole seconds of a time is kept.
  pub repository-refines :
      (h : Heap) (a : Alert) (id : String) (t : List (AlertRow c.Text))
      → (map_result (contents c) (save c h a t) ≡ saved a.id (content h a) (contents c t))
        × (map_result (contents c) (update c h a t) ≡ updated a.id (content h a) (contents c t))
        × (map_result (contents c) (delete_alert c id t) ≡ deleted id (contents c t))
        × (map_option (by_value (find_by_id c id t h).1) (find_by_id c id t h).0 ≡ contents c t id)
  unfolding find_by_id
  repository-refines h a id t = (
    save-refines h a t,
    update-refines h a t,
    delete-refines id t,
    elim (Option-cases (row_of row_id id t)) [
      | inl n ↦ rw (n) refl
      | inr (r, e) ↦ rw (e) (ap some (scan_alert-by_value r h))
    ],
  )
