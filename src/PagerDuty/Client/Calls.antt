-- ===== src/PagerDuty/Client/Calls.antt =====
-- The requests that NotifySubscribersSequentially of internal/infrastructure/pagerduty/client.go
-- makes, and the results that it reports.
use Prim.Native.Char.{Char}
use mathlib.Core.Path.{subst}
use alert_bridge.Base.{
  false, ==-false, String, ◌≡◌, ◌≢◌, refl, sym, ◌⊎◌, inl, inr, none, List, [], ◌∷◌, ◌++◌, ◌==◌,
  eq_iff, is_set, if◌then◌else◌, Bool-cases, In, arith,
}
use mathlib.Core.List.{append_assoc}
use alert_bridge.Base.Assoc.{Map, lookup, insert, lookup-insert}
use alert_bridge.UseCase.Slack.Durations.{◌+++◌}
use alert_bridge.Entity.Alert.{Alert}
use alert_bridge.PagerDuty.Event.{V2Event, trigger_event, build_dedup_key}
use alert_bridge.PagerDuty.Client.{
  Client, SubscriberNotification, Call, managed, posted, Api, Marshaled, json, unmarshalable,
  send_event, send_event_http, manage_event_with_context, answered, key_for, routed_event,
  notify_with_routing_key, notify_subscriber, notify_subscribers_loop,
  notify_subscribers_sequentially,
}

-- The first of two texts that is not empty.
abbrev pub first_set : String → String → String
first_set Prim.Native.String.[] t = t
first_set (Prim.Native.String.◌∷◌ c s) t = Prim.Native.String.◌∷◌ c s

abbrev IsFilled : String → Type 0
IsFilled Prim.Native.String.[] = ⊥
IsFilled (Prim.Native.String.◌∷◌ c s) = Unit

filled : (c : Char) (s : String) → (Prim.Native.String.◌∷◌ c s == "") ≡ false
filled c s = ==-false (Prim.Native.String.◌∷◌ c s) "" (λ p. subst IsFilled p tt)

if_set : (s t : String) → (if is_set s then s else t) ≡ first_set s t
if_set Prim.Native.String.[] t = refl
if_set (Prim.Native.String.◌∷◌ c s) t = rw (filled c s) refl

if_empty : (s t : String) → (if s == "" then t else s) ≡ first_set s t
if_empty Prim.Native.String.[] t = refl
if_empty (Prim.Native.String.◌∷◌ c s) t = rw (filled c s) refl

module _ (api : Api) where
  abbrev posted_if : Client → V2Event → Marshaled → List Call
  posted_if c e (json payload) = posted (c.events_api_url +++ "/v2/enqueue") e ∷ []
  posted_if c e (unmarshalable f) = []

  -- The request for an event: none only where the event cannot be written as JSON.
  abbrev pub request_for : Client → V2Event → List Call
  request_for c e =
      if is_set c.events_api_url then posted_if c e (api.marshal e) else managed e ∷ []

  answered-calls :
      (c : Client) (e : V2Event) (calls : List Call) (m : Marshaled)
      → (answered api c e calls m).1 ≡ posted_if c e m ++ calls
  answered-calls c e calls (json payload) = refl
  answered-calls c e calls (unmarshalable f) = refl

  pub send_event-calls :
      (c : Client) (e : V2Event) (calls : List Call)
      → (send_event api c e calls).1 ≡ request_for c e ++ calls
  unfolding send_event send_event_http manage_event_with_context
  send_event-calls c e calls = elim (Bool-cases (is_set c.events_api_url)) [
    | inl s ↦ rw (s) (answered-calls c e calls (api.marshal e))
    | inr s ↦ rw (s) refl
  ]

  -- The event for a subscriber under a routing key.
  abbrev pub event_for : Client → Alert → String → SubscriberNotification → V2Event
  event_for c a key sub = record {
    routing_key = key;
    action = "trigger";
    dedup_key = first_set a.fingerprint a.id;
    payload = (routed_event api c a key sub.pagerduty_user_id).payload;
  }

  -- One request for each subscriber with a key, its own or else the client's, the last one first.
  abbrev pub request_to : Client → Alert → SubscriberNotification → List Call
  request_to c a sub =
      let key = first_set sub.routing_key c.routing_key in
      if key == "" then [] else request_for c (event_for c a key sub)

  abbrev pub requests_to : Client → Alert → List SubscriberNotification → List Call
  requests_to c a [] = []
  requests_to c a (sub ∷ subs) = requests_to c a subs ++ request_to c a sub

  routed_event-event_for :
      (c : Client) (a : Alert) (key : String) (sub : SubscriberNotification)
      → routed_event api c a key sub.pagerduty_user_id ≡ event_for c a key sub
  unfolding routed_event trigger_event build_dedup_key
  routed_event-event_for c a key sub = rw (if_set a.fingerprint a.id) refl

  notify_subscriber-calls :
      (c : Client) (a : Alert) (sub : SubscriberNotification) (s : Map String × List Call)
      → (notify_subscriber api c a sub s).1 ≡ request_to c a sub ++ s.1
  unfolding notify_subscriber notify_with_routing_key
  notify_subscriber-calls c a sub s =
      let key = first_set sub.routing_key c.routing_key in
      elim (Bool-cases (key == "")) [
        | inl n ↦ rw (if_empty sub.routing_key c.routing_key, n) refl
        | inr n ↦
            rw
              (
                if_empty sub.routing_key c.routing_key,
                n,
                routed_event-event_for c a key sub,
                send_event-calls c (event_for c a key sub) s.1,
              )
              refl
      ]

  loop-calls :
      (c : Client) (a : Alert) (subs : List SubscriberNotification) (s : Map String × List Call)
      → (notify_subscribers_loop api c a subs s).1 ≡ requests_to c a subs ++ s.1
  unfolding notify_subscribers_loop
  loop-calls c a [] s = refl
  loop-calls c a (sub ∷ subs) s =
      rw
        (
          loop-calls c a subs (notify_subscriber api c a sub s),
          notify_subscriber-calls c a sub s,
          append_assoc,
        )
        refl

  insert-held :
      (k name v : String) (m : Map String)
      → (k ≡ name) ⊎ (lookup name m ≢ none)
      → lookup name (insert k v m) ≢ none
  insert-held k name v m h = grind (arith, lookup-insert k name v m, eq_iff k name)

  notify_subscriber-lookup :
      (c : Client) (a : Alert) (sub : SubscriberNotification) (name : String)
      → (s : Map String × List Call) → (sub.subscriber_name ≡ name) ⊎ (lookup name s.0 ≢ none)
      → lookup name (notify_subscriber api c a sub s).0 ≢ none
  unfolding notify_subscriber
  notify_subscriber-lookup c a sub name s h = elim (Bool-cases (key_for c sub == "")) [
    | inl n ↦ rw (n) (insert-held sub.subscriber_name name _ s.0 h)
    | inr n ↦ rw (n) (insert-held sub.subscriber_name name _ s.0 h)
  ]

  abbrev names_of : List SubscriberNotification → List String
  names_of [] = []
  names_of (sub ∷ subs) = sub.subscriber_name ∷ names_of subs

  loop-lookup :
      (c : Client) (a : Alert) (name : String) (subs : List SubscriberNotification)
      → (s : Map String × List Call) → In name (names_of subs) ⊎ (lookup name s.0 ≢ none)
      → lookup name (notify_subscribers_loop api c a subs s).0 ≢ none
  unfolding notify_subscribers_loop
  loop-lookup c a name [] s (inl h) = absurd h
  loop-lookup c a name [] s (inr h) = h
  loop-lookup c a name (sub ∷ subs) s (inl (inl e)) =
      loop-lookup c a name subs (notify_subscriber api c a sub s)
        (inr (notify_subscriber-lookup c a sub name s (inl (sym e))))
  loop-lookup c a name (sub ∷ subs) s (inl (inr h)) =
      loop-lookup c a name subs (notify_subscriber api c a sub s) (inl h)
  loop-lookup c a name (sub ∷ subs) s (inr h) =
      loop-lookup c a name subs (notify_subscriber api c a sub s)
        (inr (notify_subscriber-lookup c a sub name s (inr h)))

  abbrev pub AllAnswered : Map String → List SubscriberNotification → Type 0
  AllAnswered m [] = Unit
  AllAnswered m (sub ∷ subs) = (lookup sub.subscriber_name m ≢ none) × AllAnswered m subs

  all_answered :
      (m : Map String) (subs : List SubscriberNotification)
      → ((name : String) → In name (names_of subs) → lookup name m ≢ none)
      → AllAnswered m subs
  all_answered m [] h = tt
  all_answered m (sub ∷ subs) h =
      (h sub.subscriber_name (inl refl), all_answered m subs (λ name i. h name (inr i)))

  -- Whatever the API answers, NotifySubscribersSequentially asks it once for each subscriber that has
  -- a routing key, its own or else the client's, in their order: with a trigger under that key, whose
  -- dedup key is the fingerprint of the alert or else its id. It reports a result for the name of every
  -- subscriber.
  pub notify_subscribers_sequentially-calls :
      (c : Client) (a : Alert) (subs : List SubscriberNotification) (calls : List Call)
      → ((notify_subscribers_sequentially api c a subs calls).1 ≡ requests_to c a subs ++ calls)
        × AllAnswered (notify_subscribers_sequentially api c a subs calls).0 subs
  unfolding notify_subscribers_sequentially
  notify_subscribers_sequentially-calls c a subs calls = (
    loop-calls c a subs ([], calls),
    all_answered _ subs (λ name h. loop-lookup c a name subs ([], calls) (inl h)),
  )
