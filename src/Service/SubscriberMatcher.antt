-- ===== src/Service/SubscriberMatcher.antt =====
-- internal/domain/service/subscriber_matcher.go, and the subscribers of
-- internal/infrastructure/config/config.go. sort.Slice leaves the order of equal elements open;
-- the model keeps them as they came.
pub mod Matching
pub mod Order
use alert_bridge.Base.{
  ℕ, zero, suc, String, Bool, true, false, not, ◌&&◌, ◌||◌, Option, none, some, List, [], ◌∷◌, ◌==◌,
  is_set, if◌then◌else◌, ltb, map, length, filter, contains,
}
use alert_bridge.Base.Assoc.{Map, lookup, insert}
use alert_bridge.Entity.Alert.{Alert}

pub record SubscriberConfig : Type 0 where
  pub name : String
  pub slack_user_id : String
  pub pagerduty_user_id : String
  pub pagerduty_routing_key : String
  pub labels : Map String
  pub enabled : Option Bool

abbrev enabled_or_unset : Option Bool → Bool
enabled_or_unset none = true
enabled_or_unset (some b) = b

unfoldable pub is_enabled : SubscriberConfig → Bool
is_enabled s = enabled_or_unset s.enabled

unfoldable pub get_enabled_subscribers : List SubscriberConfig → List SubscriberConfig
unfolding is_enabled
get_enabled_subscribers subscribers = filter is_enabled subscribers

pub record MatchedSubscriber : Type 0 where
  pub subscriber : SubscriberConfig
  pub match_count : ℕ

abbrev pub has_value : Option String → String → Bool
has_value none v = false
has_value (some w) v = w == v

-- The early return for an empty filter gives 0, as the loop does.
unfoldable pub count_matching_labels : Map String → Map String → ℕ
unfolding lookup
count_matching_labels [] alert_labels = 0
count_matching_labels ((k, v) ∷ m) alert_labels =
    let rest = count_matching_labels m alert_labels in
    if has_value (lookup k alert_labels) v then suc rest else rest

-- 0 < n && n == m
abbrev pub all_matched : ℕ → ℕ → Bool
all_matched n m = ltb 0 n && not (ltb n m || ltb m n)

unfoldable pub match_one : Alert → SubscriberConfig → Option MatchedSubscriber
unfolding is_enabled count_matching_labels
match_one a s =
    if not (is_enabled s)
    then none
    else let n = count_matching_labels s.labels a.labels in
      if all_matched n (length s.labels)
      then some (record { subscriber = s; match_count = n })
      else none

abbrev pub cons_match : Option MatchedSubscriber → List MatchedSubscriber → List MatchedSubscriber
cons_match none ms = ms
cons_match (some m) ms = m ∷ ms

unfoldable pub match_all : Alert → List SubscriberConfig → List MatchedSubscriber
unfolding match_one
match_all a [] = []
match_all a (s ∷ subscribers) = cons_match (match_one a s) (match_all a subscribers)

unfoldable pub insert_match : MatchedSubscriber → List MatchedSubscriber → List MatchedSubscriber
insert_match m [] = m ∷ []
insert_match m (n ∷ ms) =
    if ltb m.match_count n.match_count then n ∷ insert_match m ms else m ∷ n ∷ ms

unfoldable pub sort_matches : List MatchedSubscriber → List MatchedSubscriber
unfolding insert_match
sort_matches [] = []
sort_matches (m ∷ ms) = insert_match m (sort_matches ms)

-- MatchAlert, which MatchAlertForSlack and MatchAlertForPagerDuty return as it is
unfoldable pub match_alert : List SubscriberConfig → Alert → List MatchedSubscriber
unfolding match_all sort_matches
match_alert subscribers a = sort_matches (match_all a subscribers)

-- The ids that are set, each once, in order of first occurrence; `seen` holds those taken before.
unfoldable pub distinct_ids : List String → List String → List String
distinct_ids seen [] = []
distinct_ids seen (id ∷ ids) =
    let skip = distinct_ids seen ids in
    let keep = id ∷ distinct_ids (id ∷ seen) ids in
    if is_set id && not (contains id seen) then keep else skip

unfoldable pub get_slack_user_ids : List MatchedSubscriber → List String
unfolding distinct_ids
get_slack_user_ids matched = distinct_ids [] (map (λ m. m.subscriber.slack_user_id) matched)

unfoldable pub get_pagerduty_user_ids : List MatchedSubscriber → List String
unfolding distinct_ids
get_pagerduty_user_ids matched = distinct_ids [] (map (λ m. m.subscriber.pagerduty_user_id) matched)

routing_keys_into : Map String → List MatchedSubscriber → Map String
unfolding insert
routing_keys_into keys [] = keys
routing_keys_into keys (m ∷ matched) =
    routing_keys_into
      (if is_set m.subscriber.pagerduty_routing_key
        then insert m.subscriber.name m.subscriber.pagerduty_routing_key keys
        else keys)
      matched

unfoldable pub get_pagerduty_routing_keys : List MatchedSubscriber → Map String
unfolding routing_keys_into
get_pagerduty_routing_keys matched = routing_keys_into [] matched

pub record UseCaseMatchedSubscriber : Type 0 where
  pub name : String
  pub slack_user_id : String
  pub pagerduty_user_id : String
  pub pagerduty_routing_key : String
  pub match_count : ℕ

abbrev to_use_case : MatchedSubscriber → UseCaseMatchedSubscriber
to_use_case m = record {
  name = m.subscriber.name;
  slack_user_id = m.subscriber.slack_user_id;
  pagerduty_user_id = m.subscriber.pagerduty_user_id;
  pagerduty_routing_key = m.subscriber.pagerduty_routing_key;
  match_count = m.match_count;
}

unfoldable pub to_use_case_format : List MatchedSubscriber → List UseCaseMatchedSubscriber
to_use_case_format matched = map to_use_case matched

unfoldable pub match_alert_use_case : List SubscriberConfig → Alert → List UseCaseMatchedSubscriber
unfolding match_alert to_use_case_format
match_alert_use_case subscribers a = to_use_case_format (match_alert subscribers a)

unfoldable pub get_slack_user_ids_from_use_case : List UseCaseMatchedSubscriber → List String
unfolding distinct_ids
get_slack_user_ids_from_use_case matched = distinct_ids [] (map (λ m. m.slack_user_id) matched)
