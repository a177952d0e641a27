-- ===== src/PagerDuty/Client.antt =====
-- internal/infrastructure/pagerduty/client.go. The PagerDuty library, JSON and the endpoint are the
-- record Api: an answer is a function of the calls made before. A method takes the calls made so far,
-- latest first, and returns them with its own.
pub mod Calls
pub mod RoutingKeys
use alert_bridge.Base.{
  ℕ, String, Bool, true, false, not, Option, none, some, List, [], ◌∷◌, ◌==◌, is_set, if◌then◌else◌,
  map,
}
use alert_bridge.Base.Assoc.{Map, insert}
use alert_bridge.Base.Heap.{Heap}
use alert_bridge.UseCase.Slack.Durations.{◌+++◌}
use alert_bridge.Errors.{Error, Result, ok, err, other}
use alert_bridge.Errors.Messages.{error_text}
use alert_bridge.Entity.Alert.{Alert, get_external_reference, is_resolved, is_acked}
use alert_bridge.UseCase.World.{PagerDutySubscriberNotification}
use alert_bridge.PagerDuty.Event.{
  V2Event, V2Payload, Detail, text, build_dedup_key, build_summary, build_details, map_severity,
  trigger_event, put_text,
}
use alert_bridge.PagerDuty.Failure.{
  Failure, HttpReply, Outcome, accepted, refused, http_outcome, wrap_failure,
  categorize_pager_duty_error,
}

pub record SubscriberNotification : Type 0 where
  pub subscriber_name : String
  pub pagerduty_user_id : String
  pub routing_key : String
  pub match_count : ℕ

-- `has_events_client` says that eventsClient is not nil.
pub record Client : Type 0 where
  pub has_events_client : Bool
  pub routing_key : String
  pub service_id : String
  pub from_email : String
  pub default_severity : String
  pub events_api_url : String

unfoldable pub new_client :
    (api_token routing_key service_id from_email default_severity : String)
    → (events_api_url : List String) → Client
new_client api_token routing_key service_id from_email default_severity urls = record {
  has_events_client = is_set api_token;
  routing_key = routing_key;
  service_id = service_id;
  from_email = from_email;
  default_severity = if default_severity == "" then "warning" else default_severity;
  events_api_url = elim urls [ [] ↦ "" | url ∷ _ ↦ url ];
}

-- A request, by the library or to the configured endpoint.
pub data Call : Type 0 where
  managed : V2Event → Call
  posted : String → V2Event → Call

pub data Marshaled : Type 0 where
  json : String → Marshaled
  unmarshalable : Failure → Marshaled

pub record Api : Type 0 where
  pub manage_event : List Call → V2Event → Outcome
  pub marshal : V2Event → Marshaled
  pub post : List Call → String → String → HttpReply
  pub unmarshal : String → Outcome
  pub millis : ℕ → String
  pub whole : ℕ → String

abbrev pub to_result : String → Outcome → Result String
to_result operation (accepted dedup_key) = ok dedup_key
to_result operation (refused f) = err (categorize_pager_duty_error f operation)

abbrev pub to_status : String → Outcome → Option Error
to_status operation (accepted dedup_key) = none
to_status operation (refused f) = some (categorize_pager_duty_error f operation)

abbrev pub no_key : Error
no_key = other "pagerduty routing key not configured"

abbrev pub key_for : Client → SubscriberNotification → String
key_for c sub = if sub.routing_key == "" then c.routing_key else sub.routing_key

abbrev result_text : Result String → String
result_text (ok dedup_key) = dedup_key
result_text (err e) = "error: " +++ error_text e

abbrev pub update_action : Alert → String
update_action a =
    if is_resolved a then "resolve" else if is_acked a then "acknowledge" else "trigger"

abbrev update_payload : Client → Alert → V2Payload
update_payload c a = record {
  summary = build_summary a;
  source = a.instance_name;
  severity = map_severity c.default_severity a.severity;
  timestamp = "";
  component = "";
  group = "";
  class = "";
  details = none;
}

abbrev pub incident_key : Heap → Alert → String
incident_key h a =
    if get_external_reference "pagerduty" h a == ""
    then build_dedup_key a
    else get_external_reference "pagerduty" h a

module _ (api : Api) where
  abbrev answered : Client → V2Event → List Call → Marshaled → Outcome × List Call
  answered c event calls (unmarshalable f) = (refused (wrap_failure "marshaling event" f), calls)
  answered c event calls (json payload) = (
    http_outcome api.unmarshal (api.post calls (c.events_api_url +++ "/v2/enqueue") payload),
    posted (c.events_api_url +++ "/v2/enqueue") event ∷ calls,
  )

  unfoldable pub send_event_http : Client → V2Event → List Call → Outcome × List Call
  send_event_http c event calls = answered c event calls (api.marshal event)

  unfoldable pub manage_event_with_context : V2Event → List Call → Outcome × List Call
  manage_event_with_context event calls = (api.manage_event calls event, managed event ∷ calls)

  -- The endpoint if one is configured, and else the library.
  unfoldable pub send_event : Client → V2Event → List Call → Outcome × List Call
  send_event c event calls =
      if is_set c.events_api_url
      then send_event_http c event calls
      else manage_event_with_context event calls

  unfoldable pub notify : Client → Alert → List Call → Result String × List Call
  notify c a calls =
      if c.routing_key == ""
      then (err no_key, calls)
      else (let event =
            trigger_event api.millis c.default_severity c.routing_key (build_details api.whole a)
              a in
          let (o, calls') = send_event c event calls in
          (to_result "sending pagerduty event" o, calls'))

  unfoldable pub routed_event : Client → Alert → String → String → V2Event
  routed_event c a routing_key target_user_id =
      trigger_event api.millis c.default_severity routing_key
        (put_text "target_user_id" target_user_id (build_details api.whole a)) a

  unfoldable pub notify_with_routing_key :
      Client → Alert → (routing_key target_user_id : String) → List Call → Result String × List Call
  notify_with_routing_key c a routing_key target_user_id calls =
      let (o, calls') = send_event c (routed_event c a routing_key target_user_id) calls in
      (to_result "sending pagerduty event" o, calls')

  -- The body of the loop.
  unfoldable pub notify_subscriber :
      Client → Alert → SubscriberNotification → Map String × List Call → Map String × List Call
  notify_subscriber c a sub (results, calls) =
      if key_for c sub == ""
      then (insert sub.subscriber_name "error: no routing key configured" results, calls)
      else (let (r, calls') =
            notify_with_routing_key c a (key_for c sub) sub.pagerduty_user_id calls in
          (insert sub.subscriber_name (result_text r) results, calls'))

  unfoldable pub notify_subscribers_loop :
      Client → Alert → List SubscriberNotification → Map String × List Call → Map String × List Call
  notify_subscribers_loop c a [] s = s
  notify_subscribers_loop c a (sub ∷ subs) s =
      notify_subscribers_loop c a subs (notify_subscriber c a sub s)

  unfoldable pub notify_subscribers_sequentially :
      Client → Alert → List SubscriberNotification → List Call → Map String × List Call
  notify_subscribers_sequentially c a subs calls = notify_subscribers_loop c a subs ([], calls)

  unfoldable pub update_message : Client → String → Alert → List Call → Option Error × List Call
  update_message c dedup_key a calls =
      if c.routing_key == ""
      then (some no_key, calls)
      else (let event : V2Event = record {
        routing_key = c.routing_key;
        action = update_action a;
        dedup_key = dedup_key;
        payload = if update_action a == "resolve" then none else some (update_payload c a);
      } in
          let (o, calls') = send_event c event calls in
          (to_status "updating pagerduty event" o, calls'))

  abbrev closing : String → String → Client → Heap → Alert → List Call → Option Error × List Call
  closing action operation c h a calls =
      if c.routing_key == ""
      then (some no_key, calls)
      else (let event : V2Event = record {
        routing_key = c.routing_key;
        action = action;
        dedup_key = incident_key h a;
        payload = none;
      } in
          let (o, calls') = manage_event_with_context event calls in
          (to_status operation o, calls'))

  -- The endpoint is not asked, even where one is configured.
  unfoldable pub acknowledge : Client → Heap → Alert → List Call → Option Error × List Call
  acknowledge c h a calls = closing "acknowledge" "acknowledging pagerduty event" c h a calls

  unfoldable pub resolve : Client → Heap → Alert → List Call → Option Error × List Call
  resolve c h a calls = closing "resolve" "resolving pagerduty event" c h a calls

-- The conversion of internal/app/subscriber_adapters.go.
unfoldable pub to_subscriber_notification : PagerDutySubscriberNotification → SubscriberNotification
to_subscriber_notification s = record {
  subscriber_name = s.subscriber_name;
  pagerduty_user_id = s.pagerduty_user_id;
  routing_key = s.routing_key;
  match_count = s.match_count;
}
