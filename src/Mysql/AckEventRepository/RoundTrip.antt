-- ===== src/Mysql/AckEventRepository/RoundTrip.antt =====
-- What a recorded event is when it is read again.
use alert_bridge.Base.{
  ◌≢◌, inl, inr, Option-cases, ℕ, ◌≡◌, refl, ap, some, none, List, [], ◌∷◌, ◌++◌, ==-refl,
}
use alert_bridge.Errors.{ok, err}
use alert_bridge.Entity.AckEvent.{AckEvent}
use alert_bridge.Sql.Tables.{row_of, row_of-append}
use alert_bridge.Mysql.AlertRepository.{AlertRow, row_id}
use alert_bridge.Mysql.Columns.{null_text, seconds_or_null}
use alert_bridge.Mysql.SilenceRepository.RoundTrip.{
  string_value-null_text, null_text-set, null_text-empty,
}
use alert_bridge.Sqlite.Columns.{seconds_to_duration}
use alert_bridge.Mysql.AckEventRepository.{
  EventRow, event_row_id, event_row_by, null_refused, to_event_row, scan_event, save_event,
  find_event_by_id,
}

-- The event with what the columns keep of its times.
abbrev pub kept_event : (ℕ → ℕ) → AckEvent → AckEvent
kept_event keep e = record e {
  duration = seconds_to_duration (seconds_or_null e.duration);
  created_at = keep e.created_at;
}

abbrev row : (ℕ → ℕ) → AckEvent → EventRow
row keep e = event_row_by keep e e.user_id e.user_email e.user_name

to_event_row-row :
    (keep : ℕ → ℕ) (e : AckEvent)
    → e.user_id ≢ ""
    → e.user_email ≢ ""
    → e.user_name ≢ ""
    → to_event_row keep e ≡ some (row keep e)
unfolding to_event_row
to_event_row-row keep e i m n =
    rw (null_text-set e.user_id i, null_text-set e.user_email m, null_text-set e.user_name n) refl

scan-row : (keep : ℕ → ℕ) (e : AckEvent) → scan_event (row keep e) ≡ kept_event keep e
unfolding scan_event event_row_by
scan-row keep e = rw (string_value-null_text e.note) refl

own : (keep : ℕ → ℕ) (e : AckEvent) → (row keep e).id ≡ e.id
unfolding event_row_by
own keep e = refl

-- An event with a new id about a stored alert, by a user whose id, email and name are known, is saved,
-- and once the replica has caught up FindByID gives it back, but for what the columns keep of its
-- times.
pub find-save_event :
    {T : Type 0} (keep : ℕ → ℕ) (e : AckEvent) (alerts : List (AlertRow T)) (a : AlertRow T)
    (events : List EventRow)
    → e.user_id ≢ ""
    → e.user_email ≢ ""
    → e.user_name ≢ ""
    → row_of event_row_id e.id events ≡ none
    → row_of row_id e.alert_id alerts ≡ some a
    → (events' : List EventRow) × (save_event keep e alerts events ≡ ok events')
      × (find_event_by_id e.id events' ≡ some (kept_event keep e))
unfolding save_event find_event_by_id
find-save_event keep e alerts a events i m u n f = (
  events ++ row keep e ∷ [],
  rw (to_event_row-row keep e i m u, n, f, save_event) refl,
  rw (row_of-append event_row_id e.id events (row keep e), n, own keep e, ==-refl e.id)
      (ap some (scan-row keep e)),
)

-- An acknowledgement by a user whose email is not known is refused.
save_event-refused :
    {T : Type 0} (keep : ℕ → ℕ) (e : AckEvent) (alerts : List (AlertRow T)) (events : List EventRow)
    → e.user_email ≡ ""
    → save_event keep e alerts events ≡ err null_refused
unfolding save_event to_event_row
save_event-refused keep e alerts events h = elim (Option-cases (null_text e.user_id)) [
  | inl i ↦ rw (i, save_event) refl
  | inr (id, i) ↦ rw (i, null_text-empty e.user_email h, save_event) refl
]
