-- ===== src/Sqlite/AlertRepository/References.antt =====
-- References that are set after an alert was saved are found, since a row has its own copy of them.
use alert_bridge.Base.{
  ℕ, String, ◌≡◌, refl, ap, ◌∙◌, inl, inr, Bool, true, Bool-cases, not, ◌&&◌, none, some, List, [],
  ◌∷◌, arith, ==-refl, ◌==◌,
}
use alert_bridge.Base.Assoc.{lookup, get_or, get_or-present}
use alert_bridge.Base.Heap.{Heap, read}
use alert_bridge.Entity.Alert.{Alert, get_external_reference}
use alert_bridge.Errors.{ok}
use alert_bridge.Sql.Json.{JsonCodec}
use alert_bridge.Sql.Tables.{row_of, update_rows, row_of-key, map_option}
use alert_bridge.Sqlite.Columns.{marshal_json}
use alert_bridge.Sqlite.AlertRepository.{
  AlertRow, row_id, set_columns, update, find_by_external_reference, first_row, has_reference,
  scan_alert, scan_row,
}
use alert_bridge.Sqlite.AlertRepository.Contents.{Content}
use alert_bridge.Sqlite.AlertRepository.Refinement.{
  scan_alert-by_value, load-set_columns, set_columns-id,
}

module _ (c : JsonCodec) where
  -- After an update, the row of the alert has its references.
  set_columns-has_reference :
      (h : Heap) (a : Alert) (r : AlertRow c.Text) (p : ℕ) (system reference : String)
      → c.is_plain system ≡ true
      → a.external_references ≡ some p
      → lookup system (h.cells p) ≡ some reference
      → has_reference c system reference (set_columns c h a r) ≡ true
  unfolding set_columns has_reference
  set_columns-has_reference h a r p system reference plain e l =
      rw (e, marshal_json, c.extract-encode (h.cells p) system plain, l) (==-refl reference)

  -- `q` holds of no row of another id.
  first_row-updated :
      (q : AlertRow c.Text → Bool) (h : Heap) (a : Alert) (t : List (AlertRow c.Text))
      (r : AlertRow c.Text)
      → ((x : AlertRow c.Text) → q (set_columns c h a x) ≡ true)
      → first_row c (λ x. not (row_id x == a.id) && q x) t ≡ none
      → row_of row_id a.id t ≡ some r
      → first_row c q (update_rows row_id a.id (set_columns c h a) t) ≡ some (set_columns c h a r)
  unfolding first_row row_of update_rows
  first_row-updated q h a [] r g f e = ground arith
  first_row-updated q h a (x ∷ t) r g f e = elim (Bool-cases (row_id x == a.id)) [
    | inl d ↦
        let e' : some x ≡ some r = rw d at e in rw (d, g x) (ap (map_option (set_columns c h a)) e')
    | inr d ↦ elim (Bool-cases (q x)) [
      | inl b ↦ let f' : some x ≡ none = rw (d, b) at f in cc
      | inr b ↦ rw (d, b) (first_row-updated q h a t r g (rw (d, b) at f) (rw d at e))
    ]
  ]

  read-some : (h : Heap) (p : ℕ) → read h (some p) ≡ h.cells p
  unfolding read
  read-some h p = refl

  scanned-id : (r : AlertRow c.Text) (h : Heap) → (scan_alert c r h).0.id ≡ r.id
  unfolding scan_alert
  scanned-id r h = refl

  -- An alert is stored and its map has the reference, under a system of plain letters, and no row of
  -- another alert has it. Then Update succeeds, and the search by the reference finds that alert,
  -- with the reference, whenever it was set.
  pub updated_reference_found :
      (h : Heap) (a : Alert) (t : List (AlertRow c.Text)) (r : AlertRow c.Text) (p : ℕ)
      (system reference : String)
      → row_of row_id a.id t ≡ some r
      → a.external_references ≡ some p
      → lookup system (h.cells p) ≡ some reference
      → c.is_plain system ≡ true
      → first_row c (λ x. not (row_id x == a.id) && has_reference c system reference x) t ≡ none
      → (t' : List (AlertRow c.Text)) × (b : Alert) × (h' : Heap) × (update c h a t ≡ ok t')
        × (find_by_external_reference c system reference t' h ≡ (some b, h'))
        × (b.id ≡ a.id)
        × (get_external_reference system h' b ≡ reference)
  unfolding update find_by_external_reference scan_row get_external_reference
  updated_reference_found h a t r p system reference e m l plain others =
      let has =
        λ (x : AlertRow c.Text). set_columns-has_reference h a x p system reference plain m l in
      let row = set_columns c h a r in
      let (b, h') = scan_alert c row h in
      let key = row_of-key row_id a.id t r e in
      let refs : read h' b.external_references ≡ h.cells p =
        ap (λ (x : Content). x.1) (scan_alert-by_value c row h ∙ load-set_columns c h a r key)
        ∙ ap (read h) m
        ∙ read-some h p in
      (
        update_rows row_id a.id (set_columns c h a) t,
        b,
        h',
        rw (e, update) refl,
        rw (first_row-updated (has_reference c system reference) h a t r has others e) refl,
        scanned-id row h ∙ set_columns-id c h a r ∙ key,
        ap (get_or "" system) refs ∙ get_or-present "" system reference (h.cells p) l,
      )
