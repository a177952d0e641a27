-- ===== src/Memory/AckEventRepository.antt =====
-- internal/infrastructure/persistence/memory/ack_event_repository.go. sort.Slice leaves the order of
-- equal elements open; the model keeps them as they came.
pub mod Audit
use alert_bridge.Base.{
  ℕ, suc, String, Bool, Option, none, some, List, [], ◌∷◌, ◌++◌, ◌==◌, if◌then◌else◌, ltb, take,
  length, is_set,
}
use alert_bridge.Base.Assoc.{Map, lookup, insert, get_or, values}
use alert_bridge.Entity.AckEvent.{AckEvent}
use alert_bridge.Entity.AlertSummary.{UserAckCount, sort_counts}

pub record AckEventRepository : Type 0 where
  pub events : Map AckEvent
  pub by_alert_id : Map (List String)

unfoldable pub new_ack_event_repository : AckEventRepository
new_ack_event_repository = record { events = []; by_alert_id = [] }

unfoldable pub save_event : AckEvent → AckEventRepository → AckEventRepository
save_event e r = record {
  events = insert e.id e r.events;
  by_alert_id = insert e.alert_id (get_or [] e.alert_id r.by_alert_id ++ e.id ∷ []) r.by_alert_id;
}

abbrev pub cons_event : Option AckEvent → List AckEvent → List AckEvent
cons_event none found = found
cons_event (some e) found = e ∷ found

unfoldable pub events_of : Map AckEvent → List String → List AckEvent
unfolding lookup
events_of events [] = []
events_of events (id ∷ ids) = cons_event (lookup id events) (events_of events ids)

-- Oldest first; an event goes before those that are later, behind none that is as old.
unfoldable pub insert_event : AckEvent → List AckEvent → List AckEvent
insert_event e [] = e ∷ []
insert_event e (f ∷ fs) =
    if ltb f.created_at e.created_at then f ∷ insert_event e fs else e ∷ f ∷ fs

unfoldable pub sort_events : List AckEvent → List AckEvent
unfolding insert_event
sort_events [] = []
sort_events (e ∷ es) = insert_event e (sort_events es)

unfoldable pub find_by_alert_id : String → AckEventRepository → List AckEvent
unfolding events_of sort_events
find_by_alert_id alert_id r = sort_events (events_of r.events (get_or [] alert_id r.by_alert_id))

unfoldable pub find_event_by_id : String → AckEventRepository → Option AckEvent
unfolding lookup
find_event_by_id id r = lookup id r.events

-- The later of the two; the first of two of the same time.
abbrev later_event : Option AckEvent → AckEvent → Option AckEvent
later_event none e = some e
later_event (some l) e = if ltb l.created_at e.created_at then some e else some l

unfoldable pub latest_of : Option AckEvent → List AckEvent → Option AckEvent
latest_of latest [] = latest
latest_of latest (e ∷ es) = latest_of (later_event latest e) es

unfoldable pub find_latest_by_alert_id : String → AckEventRepository → Option AckEvent
unfolding events_of latest_of
find_latest_by_alert_id alert_id r =
    latest_of none (events_of r.events (get_or [] alert_id r.by_alert_id))

-- The email, or the user id where there is none.
abbrev pub acker : AckEvent → String
acker e = if e.user_email == "" then e.user_id else e.user_email

abbrev bump : AckEvent → Option UserAckCount → UserAckCount
bump e none = record { user_name = e.user_name; user_email = e.user_email; count = 1 }
bump e (some c) = record c { count = suc c.count }

unfoldable pub count_users : List AckEvent → Map UserAckCount → Map UserAckCount
unfolding insert lookup
count_users [] counts = counts
count_users (e ∷ es) counts =
    count_users es (insert (acker e) (bump e (lookup (acker e) counts)) counts)

-- A limit of 0 (or a negative one) means 10.
unfoldable pub get_top_acknowledgers : ℕ → AckEventRepository → List UserAckCount
unfolding count_users sort_counts
get_top_acknowledgers limit r =
    let most = if ltb 0 limit then limit else 10 in
    take most (sort_counts (values (count_users (values r.events) [])))
