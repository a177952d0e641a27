-- ===== src/PagerDuty/Examples.antt =====
-- Tests and instances for the PagerDuty client.
use alert_bridge.Base.{
  ◌≡◌, ◌≢◌, ◌↔◌, ◌⊎◌, inr, refl, true, false, some, [], ◌∷◌, ◌++◌, eq_iff, arith,
}
use alert_bridge.Base.Assoc.{lookup, insert}
use alert_bridge.Errors.{is_transient_error}
use alert_bridge.PagerDuty.Event.{build_dedup_key, build_summary, join_words, trigger_event}
use alert_bridge.PagerDuty.Failure.{
  Failure, accepted, refused, replied, http_outcome, categorize_pager_duty_error,
  categorize_pager_duty_error-transient, http_outcome-permanent, IsTemporary,
}
use alert_bridge.PagerDuty.Client.{
  Client, SubscriberNotification, Api, json, notify_subscribers_sequentially,
  notify_subscribers_loop, notify_subscriber, notify_with_routing_key, send_event,
  manage_event_with_context, routed_event,
}
use alert_bridge.PagerDuty.Client.Calls.{
  AllAnswered, requests_to, notify_subscribers_sequentially-calls,
}
use alert_bridge.PagerDuty.Client.RoutingKeys.{
  OnlyTriggers, acknowledges, resolves, all_later, own_key-OnlyTriggers,
}
use alert_bridge.Samples.{disk_full, empty_heap}

abbrev api : Api
api = record {
  manage_event = λ calls e. accepted e.dedup_key;
  marshal = λ e. json "{}";
  post = λ calls url body. replied 202 "{}";
  unmarshal = λ body. accepted "key";
  millis = λ t. "";
  whole = λ t. "";
}

abbrev client : Client
client = record {
  has_events_client = true;
  routing_key = "R-default";
  service_id = "S-1";
  from_email = "ops@example.com";
  default_severity = "warning";
  events_api_url = "";
}

abbrev jinu : SubscriberNotification
jinu = record {
  subscriber_name = "jinu";
  pagerduty_user_id = "U-1";
  routing_key = "R-jinu";
  match_count = 2;
}

disk_full_summary : build_summary disk_full ≡ "[CRITICAL] DiskFull on host-1 - disk full"
unfolding build_summary join_words
disk_full_summary = refl

key_of_result :
    lookup "jinu" (notify_subscribers_sequentially api client disk_full (jinu ∷ []) []).0
    ≡ some "fp-1"
unfolding notify_subscribers_sequentially notify_subscribers_loop notify_subscriber
    notify_with_routing_key send_event manage_event_with_context routed_event trigger_event
    build_dedup_key lookup insert
key_of_result = refl

notify_subscribers_sequentially-calls_example :
    ((notify_subscribers_sequentially api client disk_full (jinu ∷ []) []).1
      ≡ requests_to api client disk_full (jinu ∷ []) ++ [])
    × AllAnswered api
        (notify_subscribers_sequentially api client disk_full (jinu ∷ []) []).0
        (jinu ∷ [])
notify_subscribers_sequentially-calls_example =
    notify_subscribers_sequentially-calls api client disk_full (jinu ∷ []) []

other_key : client.routing_key ≢ "R-jinu"
other_key e = ground (arith, eq_iff "R-default" "R-jinu")

own_key-OnlyTriggers_example : OnlyTriggers "R-jinu" (
    all_later api client empty_heap
      (acknowledges disk_full ∷ resolves disk_full ∷ [])
      (notify_subscribers_sequentially api client disk_full (jinu ∷ []) []).1)
own_key-OnlyTriggers_example =
    own_key-OnlyTriggers api client empty_heap "R-jinu" disk_full (jinu ∷ [])
      (acknowledges disk_full ∷ resolves disk_full ∷ []) other_key

abbrev overloaded : Failure
overloaded = record {
  is_network = false;
  api_status = some 503;
  is_context = false;
  message = "503";
}

categorize_pager_duty_error-transient_example :
    (is_transient_error (categorize_pager_duty_error overloaded "sending") ≡ true)
    ↔ (overloaded.is_network ≡ true) ⊎ IsTemporary overloaded (some 503)
categorize_pager_duty_error-transient_example =
    categorize_pager_duty_error-transient overloaded "sending"

http_outcome-permanent_example :
    (f : Failure) × (http_outcome (λ body. accepted body) (replied 503 "busy") ≡ refused f)
    × (is_transient_error (categorize_pager_duty_error f "sending") ≡ false)
http_outcome-permanent_example =
    http_outcome-permanent (λ body. accepted body) 503 "busy" "sending" (inr (omega arith))
