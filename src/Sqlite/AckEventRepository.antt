-- ===== src/Sqlite/AckEventRepository.antt =====
-- internal/infrastructure/persistence/sqlite/ack_event_repository.go. The rows of `alerts` are those
-- that the foreign key alert_id points to; its ON DELETE CASCADE is in `delete_with_events`.
pub mod ForeignKey
use alert_bridge.Base.{
  ℕ, suc, String, Bool, true, false, not, Option, none, some, List, [], ◌∷◌, ◌++◌, ◌==◌, leb, ltb,
  if◌then◌else◌, filter, map, take,
}
use alert_bridge.Base.Assoc.{Map, lookup, insert, values}
use alert_bridge.Base.Int.{ℤ}
use alert_bridge.Errors.{Result, ok, err, other, wrapped}
use alert_bridge.Entity.AckEvent.{AckEvent, AckSource}
use alert_bridge.Entity.AlertSummary.{UserAckCount, sort_counts}
use alert_bridge.Sql.Json.{JsonCodec}
use alert_bridge.Sql.Tables.{row_of, map_option}
use alert_bridge.Sqlite.AlertRepository.{AlertRow, row_id, delete_alert}
use alert_bridge.Sqlite.Columns.{
  null_string, string_from_null, time_to_string, parse_time, duration_to_seconds,
  seconds_to_duration,
}

pub record AckRow : Type 0 where
  pub id : String
  pub alert_id : String
  pub source : AckSource
  pub user_id : String
  pub user_email : String
  pub user_name : String
  pub note : Option String
  pub duration_seconds : Option ℤ
  pub created_at : ℕ

abbrev pub ack_row_id : AckRow → String
ack_row_id r = r.id

unfoldable pub to_ack_row : AckEvent → AckRow
unfolding null_string duration_to_seconds time_to_string
to_ack_row e = record {
  id = e.id;
  alert_id = e.alert_id;
  source = e.source;
  user_id = e.user_id;
  user_email = e.user_email;
  user_name = e.user_name;
  note = null_string e.note;
  duration_seconds = duration_to_seconds e.duration;
  created_at = time_to_string e.created_at;
}

unfoldable pub scan_ack_event : AckRow → AckEvent
unfolding string_from_null seconds_to_duration parse_time
scan_ack_event r = record {
  id = r.id;
  alert_id = r.alert_id;
  source = r.source;
  user_id = r.user_id;
  user_email = r.user_email;
  user_name = r.user_name;
  note = string_from_null r.note;
  duration = seconds_to_duration r.duration_seconds;
  created_at = parse_time r.created_at;
}

unfoldable pub find_event_by_id : String → List AckRow → Option AckEvent
unfolding row_of scan_ack_event
find_event_by_id id events = map_option scan_ack_event (row_of ack_row_id id events)

-- ORDER BY created_at ASC; rows of one second stay in their order, which the database leaves open
unfoldable pub insert_oldest_first : AckRow → List AckRow → List AckRow
insert_oldest_first r [] = r ∷ []
insert_oldest_first r (q ∷ qs) =
    if leb r.created_at q.created_at then r ∷ q ∷ qs else q ∷ insert_oldest_first r qs

unfoldable pub oldest_first : List AckRow → List AckRow
unfolding insert_oldest_first
oldest_first [] = []
oldest_first (r ∷ rs) = insert_oldest_first r (oldest_first rs)

unfoldable pub find_by_alert_id : String → List AckRow → List AckEvent
unfolding scan_ack_event oldest_first
find_by_alert_id alert_id events =
    map scan_ack_event (oldest_first (filter (λ r. r.alert_id == alert_id) events))

-- ORDER BY created_at DESC LIMIT 1: the first of those of the latest second
unfoldable pub latest_row : Option AckRow → List AckRow → Option AckRow
latest_row latest [] = latest
latest_row none (r ∷ rs) = latest_row (some r) rs
latest_row (some l) (r ∷ rs) =
    latest_row (if ltb l.created_at r.created_at then some r else some l) rs

unfoldable pub find_latest_by_alert_id : String → List AckRow → Option AckEvent
unfolding scan_ack_event latest_row
find_latest_by_alert_id alert_id events =
    map_option scan_ack_event (latest_row none (filter (λ r. r.alert_id == alert_id) events))

abbrev counted : AckRow → Option UserAckCount → UserAckCount
counted r none = record { user_name = r.user_name; user_email = r.user_email; count = 1 }
counted r (some c) = record c { count = suc c.count }

-- GROUP BY user_email; the name of a group is that of one of its rows, here the first
unfoldable pub group_by_email : List AckRow → Map UserAckCount → Map UserAckCount
unfolding insert lookup
group_by_email [] groups = groups
group_by_email (r ∷ rs) groups =
    group_by_email rs (insert r.user_email (counted r (lookup r.user_email groups)) groups)

-- A limit of 0 (or a negative one) means 10.
unfoldable pub get_top_acknowledgers : ℕ → List AckRow → List UserAckCount
unfolding group_by_email sort_counts
get_top_acknowledgers limit events =
    let most = if ltb 0 limit then limit else 10 in
    take most (sort_counts (values (group_by_email events [])))

module _ (c : JsonCodec) where
  open c use {Text}

  abbrev add_row : AckEvent → List AckRow → Option (AlertRow Text) → Result (List AckRow)
  add_row e events none = err (wrapped "alert not found" (other "FOREIGN KEY constraint failed"))
  add_row e events (some a) = ok (events ++ to_ack_row e ∷ [])

  -- The key of the row is checked before the foreign key.
  unfoldable pub save_event : AckEvent → List (AlertRow Text) → List AckRow → Result (List AckRow)
  unfolding to_ack_row row_of
  save_event e alerts events = elim (row_of ack_row_id e.id events) [
    | some _ ↦ err (wrapped "insert ack event" (other "UNIQUE constraint failed"))
    | none ↦ add_row e events (row_of row_id e.alert_id alerts)
  ]

  abbrev cascade :
      String
      → List AckRow
      → Result (List (AlertRow Text))
      → Result (List (AlertRow Text) × List AckRow)
  cascade id events (err e) = err e
  cascade id events (ok alerts) = ok (alerts, filter (λ r. not (r.alert_id == id)) events)

  -- Delete of the alert repository, on both tables.
  unfoldable pub delete_with_events :
      String → List (AlertRow Text) → List AckRow → Result (List (AlertRow Text) × List AckRow)
  unfolding delete_alert
  delete_with_events id alerts events = cascade id events (delete_alert c id alerts)
