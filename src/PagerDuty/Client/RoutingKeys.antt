-- ===== src/PagerDuty/Client/RoutingKeys.antt =====
-- Which routing keys the events of internal/infrastructure/pagerduty/client.go carry.
use alert_bridge.Base.{
  String, ◌≡◌, ◌≢◌, refl, sym, ◌∙◌, inl, inr, List, [], ◌∷◌, ◌++◌, ◌==◌, Bool-cases, arith,
}
use alert_bridge.Base.Heap.{Heap}
use alert_bridge.Entity.Alert.{Alert}
use alert_bridge.PagerDuty.Event.{V2Event}
use alert_bridge.PagerDuty.Client.{
  Client, SubscriberNotification, Call, managed, posted, Api, notify_subscribers_sequentially,
  update_message, acknowledge, resolve, manage_event_with_context, send_event,
}
use alert_bridge.PagerDuty.Client.Calls.{
  first_set, event_for, request_for, request_to, requests_to, send_event-calls,
  notify_subscribers_sequentially-calls,
}

abbrev event_of : Call → V2Event
event_of (managed e) = e
event_of (posted url e) = e

-- The incident under this key is opened, and never acknowledged or resolved.
abbrev pub OnlyTriggers : String → List Call → Type 0
OnlyTriggers key [] = Unit
OnlyTriggers key (call ∷ calls) =
    ((event_of call).routing_key ≡ key → (event_of call).action ≡ "trigger")
    × OnlyTriggers key calls

OnlyTriggers-append :
    (key : String) (xs ys : List Call)
    → OnlyTriggers key xs
    → OnlyTriggers key ys
    → OnlyTriggers key (xs ++ ys)
OnlyTriggers-append key [] ys p q = q
OnlyTriggers-append key (x ∷ xs) ys p q = (p.0, OnlyTriggers-append key xs ys p.1 q)

-- What the client does for an alert after it has told the subscribers.
pub data Later : Type 0 where
  updates : String → Alert → Later
  acknowledges resolves : Alert → Later

module _ (api : Api) (c : Client) (h : Heap) where
  pub later : Later → List Call → List Call
  later (updates dedup_key a) calls = (update_message api c dedup_key a calls).1
  later (acknowledges a) calls = (acknowledge api c h a calls).1
  later (resolves a) calls = (resolve api c h a calls).1

  pub all_later : List Later → List Call → List Call
  all_later [] calls = calls
  all_later (l ∷ ls) calls = all_later ls (later l calls)

  module _ (key : String) where
    request_for-OnlyTriggers :
        (e : V2Event)
        → (e.routing_key ≡ key → e.action ≡ "trigger")
        → OnlyTriggers key (request_for api c e)
    request_for-OnlyTriggers e p = ground (arith, p)

    request_to-OnlyTriggers :
        (a : Alert) (sub : SubscriberNotification) → OnlyTriggers key (request_to api c a sub)
    request_to-OnlyTriggers a sub =
        let own = first_set sub.routing_key c.routing_key in
        elim (Bool-cases (own == "")) [
          | inl e ↦ rw e tt
          | inr e ↦ rw e (request_for-OnlyTriggers (event_for api c a own sub) (λ _. refl))
        ]

    requests_to-OnlyTriggers :
        (a : Alert) (subs : List SubscriberNotification)
        → OnlyTriggers key (requests_to api c a subs)
    requests_to-OnlyTriggers a [] = tt
    requests_to-OnlyTriggers a (sub ∷ subs) =
        OnlyTriggers-append key _ _ (requests_to-OnlyTriggers a subs)
          (request_to-OnlyTriggers a sub)

    module _ (other_key : c.routing_key ≢ key) where
      send_event-OnlyTriggers :
          (e : V2Event) (calls : List Call)
          → e.routing_key ≡ c.routing_key
          → OnlyTriggers key calls
          → OnlyTriggers key (send_event api c e calls).1
      send_event-OnlyTriggers e calls k p = rw (send_event-calls api c e calls) (
          OnlyTriggers-append key _ _
            (request_for-OnlyTriggers e (λ q. absurd (other_key (sym k ∙ q)))) p)

      later-OnlyTriggers :
          (l : Later) (calls : List Call)
          → OnlyTriggers key calls
          → OnlyTriggers key (later l calls)
      unfolding later update_message acknowledge resolve manage_event_with_context
      later-OnlyTriggers (updates d a) calls p = elim (Bool-cases (c.routing_key == "")) [
        | inl e ↦ rw (e, later, update_message) p
        | inr e ↦ rw (e, later, update_message) (send_event-OnlyTriggers _ calls refl p)
      ]
      later-OnlyTriggers (acknowledges a) calls p = elim (Bool-cases (c.routing_key == "")) [
        | inl e ↦ rw (e, later, acknowledge) p
        | inr e ↦ rw (e, later, acknowledge) (λ q. absurd (other_key q), p)
      ]
      later-OnlyTriggers (resolves a) calls p = elim (Bool-cases (c.routing_key == "")) [
        | inl e ↦ rw (e, later, resolve) p
        | inr e ↦ rw (e, later, resolve) (λ q. absurd (other_key q), p)
      ]

      all_later-OnlyTriggers :
          (ls : List Later) (calls : List Call)
          → OnlyTriggers key calls
          → OnlyTriggers key (all_later ls calls)
      unfolding all_later
      all_later-OnlyTriggers [] calls p = p
      all_later-OnlyTriggers (l ∷ ls) calls p =
          all_later-OnlyTriggers ls (later l calls) (later-OnlyTriggers l calls p)

-- Under a routing key that is not the client's, as a subscriber may have, an incident is only ever
-- opened: whatever updates, acknowledgements and resolutions follow the notification of the
-- subscribers, and whatever the API answers, every event with that key is a trigger.
pub own_key-OnlyTriggers :
    (api : Api) (c : Client) (h : Heap) (key : String) (a : Alert)
    (subs : List SubscriberNotification) (ls : List Later)
    → c.routing_key ≢ key
    → OnlyTriggers key (all_later api c h ls (notify_subscribers_sequentially api c a subs []).1)
own_key-OnlyTriggers api c h key a subs ls ne = all_later-OnlyTriggers api c h key ne ls _ (
    rw ((notify_subscribers_sequentially-calls api c a subs []).0)
      (OnlyTriggers-append key _ [] (requests_to-OnlyTriggers api c h key a subs) tt))
