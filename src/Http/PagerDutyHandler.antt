-- ===== src/Http/PagerDutyHandler.antt =====
-- internal/adapter/handler/pagerduty.go: POST /webhook/pagerduty, and what it reads of the payload in
-- internal/adapter/dto/pagerduty.go. `unmarshal` is json.Unmarshal, `none` for an error.
pub mod Messages
use alert_bridge.Base.{
  ℕ, suc, ◌+◌, String, Bool, true, false, ◌&&◌, ◌||◌, Option, none, some, List, [], ◌∷◌, ◌==◌,
  if◌then◌else◌,
}
use alert_bridge.Base.Text.{itoa}
use alert_bridge.UseCase.Slack.Durations.{◌+++◌}
use alert_bridge.Errors.{Error, Result, ok, err}
use alert_bridge.UseCase.PagerDutyWebhook.{
  HandlePagerDutyWebhookInput, HandlePagerDutyWebhookOutput, HandleWebhookUseCase, execute,
}
use alert_bridge.UseCase.World.{World}
use alert_bridge.Http.Request.{Request, Response, Handler, deny}

pub record PagerDutyAgent : Type 0 where
  pub id : String
  pub name : String
  pub email : String

pub record PagerDutyUserRef : Type 0 where
  pub id : String
  pub summary : String
  pub email : String

-- `acknowledgers` has the Acknowledger of each reference.
pub record PagerDutyWebhookEventData : Type 0 where
  pub id : String
  pub status : String
  pub incident_key : String
  pub acknowledgers : List PagerDutyUserRef
  pub last_status_change_by : Option PagerDutyUserRef
  pub resolve_reason : String

pub record PagerDutyWebhookEvent : Type 0 where
  pub event_type : String
  pub agent : Option PagerDutyAgent
  pub data_of : PagerDutyWebhookEventData

unfoldable pub is_supported_event_type : String → Bool
is_supported_event_type t =
    t == "incident.acknowledged"
    || t == "incident.resolved"
    || t == "incident.unacknowledged"
    || t == "incident.reassigned"

-- The user of an event: id, email and name.
abbrev pub Person : Type 0
Person = String × String × String

abbrev changed_by : Option PagerDutyUserRef → Person
changed_by none = ("", "", "")
changed_by (some u) = (u.id, u.email, u.summary)

abbrev agent_or : Option PagerDutyAgent → Person → Person
agent_or none p = p
agent_or (some a) p = (a.id, a.email, a.name)

abbrev last_or : List PagerDutyUserRef → Person → Person
last_or [] p = p
last_or (u ∷ []) p = (u.id, u.email, u.summary)
last_or (u ∷ v ∷ us) p = last_or (v ∷ us) p

-- The last acknowledger of an acknowledgement, else the agent, else who changed the status last.
unfoldable pub person_of : PagerDutyWebhookEvent → Person
person_of e =
    let p = agent_or e.agent (changed_by e.data_of.last_status_change_by) in
    let q = last_or e.data_of.acknowledgers p in
    if e.event_type == "incident.acknowledged" then q else p

unfoldable pub to_webhook_input : PagerDutyWebhookEvent → HandlePagerDutyWebhookInput
to_webhook_input e = record {
  event_type = e.event_type;
  incident_id = e.data_of.id;
  incident_key = e.data_of.incident_key;
  user_id = (person_of e).0;
  user_email = (person_of e).1;
  user_name = (person_of e).2;
  status = e.data_of.status;
  resolve_reason = e.data_of.resolve_reason;
}

pub record Tally : Type 0 where
  pub processed : ℕ
  pub skipped : ℕ

-- An error is logged, and counted nowhere.
abbrev pub tallied : Result HandlePagerDutyWebhookOutput → Tally → Tally
tallied (ok out) n =
    if out.processed
    then record n { processed = suc n.processed }
    else record n { skipped = suc n.skipped }
tallied (err e) n = n

abbrev tally_body : Tally → String
tally_body n =
    "{\"processed\":"
    +++ itoa n.processed
    +++ ",\"skipped\":"
    +++ itoa n.skipped
    +++ ",\"status\":\"ok\"}\n"

module _ {S : Type 0} (uc : HandleWebhookUseCase S) where
  -- The body of the loop over the messages.
  unfoldable pub process_message : PagerDutyWebhookEvent → Tally → World S → Tally × World S
  process_message e n w =
      if is_supported_event_type e.event_type
      then (let (r, w') = execute uc (to_webhook_input e) w in (tallied r n, w'))
      else (record n { skipped = suc n.skipped }, w)

  unfoldable pub process_messages : List PagerDutyWebhookEvent → Tally → World S → Tally × World S
  process_messages [] n w = (n, w)
  process_messages (e ∷ es) n w = let (n', w') = process_message e n w in process_messages es n' w'

  abbrev answered : Option (List PagerDutyWebhookEvent) → World S → Response × World S
  answered none w = deny 400 "invalid payload" w
  answered (some messages) w =
      let (n, w') = process_messages messages (record { processed = 0; skipped = 0 }) w in
      (record { status = 202; body = tally_body n }, w')

  abbrev with_body :
      (String → Option (List PagerDutyWebhookEvent)) → Option String → World S → Response × World S
  with_body unmarshal none w = deny 400 "failed to read body" w
  with_body unmarshal (some body) w = answered (unmarshal body) w

  -- (*PagerDutyWebhookHandler).ServeHTTP
  unfoldable pub serve_pager_duty :
      (String → Option (List PagerDutyWebhookEvent)) → Handler (World S)
  serve_pager_duty unmarshal r w =
      if r.method == "POST" then with_body unmarshal r.body w else deny 405 "method not allowed" w
