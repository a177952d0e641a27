-- ===== src/Mysql/AckEventRepository.antt =====
-- internal/infrastructure/persistence/mysql/ack_event_repository.go. Save writes to the primary, and the
-- other methods read the replica. `keep` is what a TIMESTAMP column keeps of a time, and `alerts` are
-- the rows that the foreign key alert_id points to.
pub mod RoundTrip
use alert_bridge.Base.{
  ℕ, suc, String, Bool, Option, none, some, List, [], ◌∷◌, ◌++◌, ◌==◌, leb, ltb, if◌then◌else◌,
  filter, map, take,
}
use alert_bridge.Base.Assoc.{Map, lookup, insert, values, or_else}
use alert_bridge.Base.Int.{ℤ}
use alert_bridge.Errors.{
  Error, Result, wrapped, other, ok, err, sentinel, not_found, already_exists,
}
use alert_bridge.Entity.AckEvent.{AckEvent, AckSource}
use alert_bridge.Entity.AlertSummary.{UserAckCount, sort_counts}
use alert_bridge.Sql.Tables.{row_of, map_option}
use alert_bridge.Mysql.AlertRepository.{AlertRow, row_id}
use alert_bridge.Mysql.Columns.{null_text, string_value, seconds_or_null}
use alert_bridge.Sqlite.Columns.{seconds_to_duration}

pub record EventRow : Type 0 where
  pub id : String
  pub alert_id : String
  pub source : AckSource
  pub user_id : String
  pub user_email : String
  pub user_name : String
  pub note : Option String
  pub duration_seconds : Option ℤ
  pub created_at : ℕ

abbrev pub event_row_id : EventRow → String
event_row_id r = r.id

-- The row of the INSERT, by its three columns about the user, which are NOT NULL.
unfoldable pub event_row_by : (ℕ → ℕ) → AckEvent → (id email name : String) → EventRow
unfolding null_text seconds_or_null
event_row_by keep e id email name = record {
  id = e.id;
  alert_id = e.alert_id;
  source = e.source;
  user_id = id;
  user_email = email;
  user_name = name;
  note = null_text e.note;
  duration_seconds = seconds_or_null e.duration;
  created_at = keep e.created_at;
}

abbrev all_set :
    Option String
    → Option String
    → Option String
    → (String → String → String → EventRow)
    → Option EventRow
all_set (some id) (some email) (some name) f = some (f id email name)
all_set _ _ _ f = none

-- `none` where a column that is NOT NULL is given NULL.
unfoldable pub to_event_row : (ℕ → ℕ) → AckEvent → Option EventRow
unfolding null_text event_row_by
to_event_row keep e =
    all_set (null_text e.user_id) (null_text e.user_email) (null_text e.user_name)
      (event_row_by keep e)

unfoldable pub scan_event : EventRow → AckEvent
unfolding string_value seconds_to_duration
scan_event r = record {
  id = r.id;
  alert_id = r.alert_id;
  source = r.source;
  user_id = r.user_id;
  user_email = r.user_email;
  user_name = r.user_name;
  note = string_value r.note;
  duration = seconds_to_duration r.duration_seconds;
  created_at = r.created_at;
}

abbrev add_event :
    {T : Type 0} → EventRow → List EventRow → Option (AlertRow T) → Result (List EventRow)
add_event r events none = err (sentinel not_found)
add_event r events (some a) = ok (events ++ r ∷ [])

-- ER_BAD_NULL_ERROR, by its number.
abbrev pub null_refused : Error
null_refused = wrapped "inserting ack event" (other "Error 1048")

-- A NULL is refused first, as in the strict mode of the database, and the key of the row is checked
-- before the foreign key.
unfoldable pub save_event :
    {T : Type 0} → (ℕ → ℕ) → AckEvent → List (AlertRow T) → List EventRow → Result (List EventRow)
unfolding to_event_row row_of
save_event keep e alerts events = elim (to_event_row keep e) [
  | none ↦ err null_refused
  | some r ↦ elim (row_of event_row_id e.id events) [
    | some _ ↦ err (sentinel already_exists)
    | none ↦ add_event r events (row_of row_id e.alert_id alerts)
  ]
]

unfoldable pub find_event_by_id : String → List EventRow → Option AckEvent
unfolding row_of scan_event
find_event_by_id id replica = map_option scan_event (row_of event_row_id id replica)

-- ORDER BY created_at ASC; rows of one time stay in their order, which the database leaves open
unfoldable pub insert_oldest_first : EventRow → List EventRow → List EventRow
insert_oldest_first r [] = r ∷ []
insert_oldest_first r (q ∷ qs) =
    if leb r.created_at q.created_at then r ∷ q ∷ qs else q ∷ insert_oldest_first r qs

unfoldable pub oldest_first : List EventRow → List EventRow
unfolding insert_oldest_first
oldest_first [] = []
oldest_first (r ∷ rs) = insert_oldest_first r (oldest_first rs)

unfoldable pub find_by_alert_id : String → List EventRow → List AckEvent
unfolding scan_event oldest_first
find_by_alert_id alert_id replica =
    map scan_event (oldest_first (filter (λ r. r.alert_id == alert_id) replica))

-- ORDER BY created_at DESC LIMIT 1
unfoldable pub latest_row : Option EventRow → List EventRow → Option EventRow
latest_row latest [] = latest
latest_row none (r ∷ rs) = latest_row (some r) rs
latest_row (some l) (r ∷ rs) =
    latest_row (if ltb l.created_at r.created_at then some r else some l) rs

unfoldable pub find_latest_by_alert_id : String → List EventRow → Option AckEvent
unfolding scan_event latest_row
find_latest_by_alert_id alert_id replica =
    map_option scan_event (latest_row none (filter (λ r. r.alert_id == alert_id) replica))

abbrev counted : EventRow → Option UserAckCount → UserAckCount
counted r none = record { user_name = r.user_name; user_email = r.user_email; count = 1 }
counted r (some c) = record c { count = suc c.count }

-- GROUP BY user_email; the name of a group is that of one of its rows, here the first
unfoldable pub group_by_email : List EventRow → Map UserAckCount → Map UserAckCount
unfolding insert lookup
group_by_email [] groups = groups
group_by_email (r ∷ rs) groups =
    let email = r.user_email in
    group_by_email rs (insert email (counted r (lookup email groups)) groups)

-- A limit of 0 (or a negative one) means 10.
unfoldable pub get_top_acknowledgers : ℕ → List EventRow → List UserAckCount
unfolding group_by_email sort_counts
get_top_acknowledgers limit replica =
    let most = if ltb 0 limit then limit else 10 in
    take most (sort_counts (values (group_by_email replica [])))
