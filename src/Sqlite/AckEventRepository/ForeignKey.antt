-- ===== src/Sqlite/AckEventRepository/ForeignKey.antt =====
-- The foreign key of the acknowledgement events, over any calls of the two repositories.
use alert_bridge.Base.{
  String, ◌≡◌, refl, ap, ◌∙◌, inl, inr, true, false, not, Bool-cases, Option-cases, none, some,
  List, [], ◌∷◌, ◌==◌, if◌then◌else◌, filter-In, In, In-append, arith, eq_iff,
}
use alert_bridge.Base.Heap.{Heap}
use alert_bridge.Errors.{Result, ok, err}
use alert_bridge.Entity.Alert.{Alert}
use alert_bridge.Entity.AckEvent.{AckEvent}
use alert_bridge.Sql.Json.{JsonCodec}
use alert_bridge.Sql.Tables.{
  row_of, row_of-append, row_of-delete_rows, row_of-update_rows, or_first,
}
use alert_bridge.Sqlite.AlertRepository.{
  AlertRow, row_id, to_row, set_columns, save, update, delete_alert,
}
use alert_bridge.Sqlite.AlertRepository.Refinement.{set_columns-id}
use alert_bridge.Sqlite.AckEventRepository.{
  AckRow, ack_row_id, to_ack_row, save_event, delete_with_events,
}

module _ (c : JsonCodec) where
  pub record Database : Type 0 where
    pub alerts : List (AlertRow c.Text)
    pub events : List AckRow

  -- A call that writes.
  pub data Call : Type 0 where
    save_alert : Heap → Alert → Call
    update_alert : Heap → Alert → Call
    drop_alert : String → Call
    record_event : AckEvent → Call

  abbrev alerts_or : Database → Result (List (AlertRow c.Text)) → Database
  alerts_or db (ok t) = record db { alerts = t }
  alerts_or db (err e) = db

  abbrev both_or : Database → Result (List (AlertRow c.Text) × List AckRow) → Database
  both_or db (ok (t, events)) = record { alerts = t; events = events }
  both_or db (err e) = db

  abbrev events_or : Database → Result (List AckRow) → Database
  events_or db (ok events) = record db { events = events }
  events_or db (err e) = db

  -- A call that is refused leaves the tables as they are.
  unfoldable pub perform : Call → Database → Database
  unfolding save update delete_with_events save_event
  perform (save_alert h a) db = alerts_or db (save c h a db.alerts)
  perform (update_alert h a) db = alerts_or db (update c h a db.alerts)
  perform (drop_alert id) db = both_or db (delete_with_events c id db.alerts db.events)
  perform (record_event e) db = events_or db (save_event c e db.alerts db.events)

  unfoldable pub perform_all : List Call → Database → Database
  unfolding perform
  perform_all [] db = db
  perform_all (call ∷ calls) db = perform_all calls (perform call db)

  abbrev pub Present : String → List (AlertRow c.Text) → Type 0
  Present id t = (r : AlertRow c.Text) × (row_of row_id id t ≡ some r)

  -- Every event is about a stored alert.
  abbrev pub HaveAlerts : Database → Type 0
  HaveAlerts db = (r : AckRow) → In r db.events → Present r.alert_id db.alerts

  save-HaveAlerts :
      (h : Heap) (a : Alert) (db : Database)
      → HaveAlerts db
      → HaveAlerts (perform (save_alert h a) db)
  unfolding perform save
  save-HaveAlerts h a db v = elim (Option-cases (row_of row_id a.id db.alerts)) [
    | inr (q, e) ↦ rw (e, save) v
    | inl n ↦
        rw (n, save)
          (λ r i.
            let (q, e) = v r i in
            (
              q,
              row_of-append row_id r.alert_id db.alerts (to_row c h a)
                  ∙ ap
                      (λ o.
                        or_first o
                          (if (to_row c h a).id == r.alert_id then some (to_row c h a) else none))
                      e,
            ))
  ]

  update-HaveAlerts :
      (h : Heap) (a : Alert) (db : Database)
      → HaveAlerts db
      → HaveAlerts (perform (update_alert h a) db)
  unfolding perform update
  update-HaveAlerts h a db v = elim (Option-cases (row_of row_id a.id db.alerts)) [
    | inl n ↦ rw (n, update) v
    | inr (q, f) ↦
        rw (f, update)
          (λ r i.
            let (p, e) = v r i in
            let law =
              row_of-update_rows row_id a.id r.alert_id (set_columns c h a) db.alerts
                (set_columns-id c h a) in
            elim (Bool-cases (a.id == r.alert_id)) [
              | inl m ↦ (set_columns c h a p, law ∙ rw (m, e) refl)
              | inr m ↦ (p, law ∙ rw (m, e) refl)
            ])
  ]

  drop-HaveAlerts :
      (id : String) (db : Database) → HaveAlerts db → HaveAlerts (perform (drop_alert id) db)
  unfolding perform delete_with_events delete_alert
  drop-HaveAlerts id db v = elim (Option-cases (row_of row_id id db.alerts)) [
    | inl n ↦ rw (n, delete_alert) v
    | inr (q, f) ↦
        rw (f, delete_alert)
          (λ r i.
            let (j, m) = filter-In (λ x. not (x.alert_id == id)) r db.events i in
            let (p, e) = v r j in
            let other : not (r.alert_id == id) ≡ true → (id == r.alert_id) ≡ false =
              λ z. ground (arith, eq_iff id r.alert_id, eq_iff r.alert_id id) in
            (p, row_of-delete_rows row_id id r.alert_id db.alerts ∙ rw (other m, e) refl))
  ]

  record-HaveAlerts :
      (e : AckEvent) (db : Database) → HaveAlerts db → HaveAlerts (perform (record_event e) db)
  unfolding perform save_event to_ack_row
  record-HaveAlerts e db v = elim (Option-cases (row_of ack_row_id e.id db.events)) [
    | inr (q, f) ↦ rw (f, save_event) v
    | inl n ↦ elim (Option-cases (row_of row_id e.alert_id db.alerts)) [
      | inl m ↦ rw (n, m, save_event) v
      | inr (q, f) ↦
          rw (n, f, save_event)
            (λ r i. elim (In-append r db.events (to_ack_row e ∷ []) i) [
              | inl j ↦ v r j
              | inr (inl p) ↦ (q, ap (λ (x : AckRow). row_of row_id x.alert_id db.alerts) p ∙ f)
              | inr (inr z) ↦ absurd z
            ])
    ]
  ]

  perform-HaveAlerts : (call : Call) (db : Database) → HaveAlerts db → HaveAlerts (perform call db)
  perform-HaveAlerts (save_alert h a) db v = save-HaveAlerts h a db v
  perform-HaveAlerts (update_alert h a) db v = update-HaveAlerts h a db v
  perform-HaveAlerts (drop_alert id) db v = drop-HaveAlerts id db v
  perform-HaveAlerts (record_event e) db v = record-HaveAlerts e db v

  -- If every event is about a stored alert, then so it is after any calls that store, update and delete
  -- alerts and record events, whatever of them is refused.
  pub perform_all-HaveAlerts :
      (calls : List Call) (db : Database) → HaveAlerts db → HaveAlerts (perform_all calls db)
  unfolding perform_all
  perform_all-HaveAlerts [] db v = v
  perform_all-HaveAlerts (call ∷ calls) db v =
      perform_all-HaveAlerts calls (perform call db) (perform-HaveAlerts call db v)
