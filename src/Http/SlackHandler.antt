-- ===== src/Http/SlackHandler.antt =====
-- internal/adapter/handler/slack.go: POST /webhook/slack/interactions and /webhook/slack/events. The form
-- and the JSON of a request are read by the libraries, which are arguments: `none` is an error.
-- `form` is r.ParseForm with r.FormValue("payload").
use alert_bridge.Base.{String, Option, none, some, List, [], ◌∷◌, ◌==◌, if◌then◌else◌}
use alert_bridge.Base.Text.{cut}
use alert_bridge.Errors.{Result, ok, err}
use alert_bridge.Errors.Messages.{error_text}
use alert_bridge.UseCase.Slack.HandleInteraction.{SlackInteractionInput, SlackInteractionOutput}
use alert_bridge.UseCase.Slack.ModalSubmission.{InteractionCallback}
use alert_bridge.UseCase.World.{World, Exec}
use alert_bridge.Http.Request.{Request, Response, Handler, deny}

-- One of the actions of slack.InteractionCallback.
pub record Action : Type 0 where
  pub action_id : String
  pub value : String
  pub selected_value : String

-- slack.InteractionCallback, with the part behind the form in `view`.
pub record Interaction : Type 0 where
  pub kind : String
  pub actions : List Action
  pub view : InteractionCallback
  pub user_id : String
  pub user_name : String
  pub response_url : String
  pub channel_id : String
  pub message_timestamp : String
  pub trigger_id : String

-- The value of a button is the id of its alert; that of a list is the option that is selected.
unfoldable pub to_interaction_input : Interaction → Action → SlackInteractionInput
to_interaction_input p a = record {
  action_id = a.action_id;
  alert_id = a.value;
  user_id = p.user_id;
  user_name = p.user_name;
  user_email = "";
  response_url = p.response_url;
  channel_id = p.channel_id;
  message_ts = p.message_timestamp;
  value = a.selected_value;
  trigger_id = p.trigger_id;
}

-- json.NewEncoder(w).Encode of the answer to a form that is refused, `errors_body` of the
-- message.
abbrev refusal : (String → String) → String → Response
refusal errors_body message = record { status = 200; body = errors_body message }

abbrev empty_answer : Response
empty_answer = record { status = 200; body = "" }

module _ {S : Type 0} (execute : SlackInteractionInput → Exec S SlackInteractionOutput) where
  -- handleBlockActions: an action that fails is logged, and the next one is tried.
  unfoldable pub handle_block_actions : Interaction → List Action → World S → World S
  handle_block_actions p [] w = w
  handle_block_actions p (a ∷ actions) w =
      let (r, w') = execute (to_interaction_input p a) w in handle_block_actions p actions w'

  module _ (submit : InteractionCallback → Exec S SlackInteractionOutput)
      (errors_body : String → String) where
    abbrev submitted : Result SlackInteractionOutput → Response
    submitted (ok out) = empty_answer
    submitted (err e) = refusal errors_body (error_text e)

    unfoldable pub handle_view_submission : Interaction → World S → Response × World S
    handle_view_submission p w = let (r, w') = submit p.view w in (submitted r, w')

    -- The switch on the type of the interaction.
    unfoldable pub route_interaction : Interaction → World S → Response × World S
    route_interaction p w =
        if p.kind == "view_submission"
        then handle_view_submission p w
        else if p.kind == "block_actions"
        then (empty_answer, handle_block_actions p p.actions w)
        else (empty_answer, w)

    abbrev parsed : Option Interaction → World S → Response × World S
    parsed none w = deny 400 "invalid payload" w
    parsed (some p) w = route_interaction p w

    abbrev with_form : (String → Option Interaction) → Option String → World S → Response × World S
    with_form unmarshal none w = deny 400 "invalid form data" w
    with_form unmarshal (some payload) w =
        if payload == "" then deny 400 "missing payload" w else parsed (unmarshal payload) w

    -- (*SlackInteractionHandler).ServeHTTP
    unfoldable pub serve_slack_interaction :
        (Request → Option String) → (String → Option Interaction) → Handler (World S)
    serve_slack_interaction form unmarshal r w =
        if r.method == "POST"
        then with_form unmarshal (form r) w
        else deny 405 "method not allowed" w

-- The event that is read: its type and its challenge.
abbrev event_answer : {W : Type 0} → Option (String × String) → W → Response × W
event_answer none w = deny 400 "invalid payload" w
event_answer (some (kind, challenge)) w = (
  if kind == "url_verification" then record { status = 200; body = challenge } else empty_answer,
  w,
)

abbrev event_body :
    {W : Type 0} → (String → Option (String × String)) → Option String → W → Response × W
event_body unmarshal none w = deny 400 "failed to read body" w
event_body unmarshal (some body) w = event_answer (unmarshal body) w

-- (*SlackEventsHandler).ServeHTTP
unfoldable pub serve_slack_events : {W : Type 0} → (String → Option (String × String)) → Handler W
serve_slack_events unmarshal r w =
    if r.method == "POST" then event_body unmarshal r.body w else deny 405 "method not allowed" w

-- parseMessageID: "channel:timestamp", `none` for its error
unfoldable pub parse_message_id : String → Option (String × String)
parse_message_id message_id = cut ":" message_id
