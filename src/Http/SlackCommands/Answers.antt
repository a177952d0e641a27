-- ===== src/Http/SlackCommands/Answers.antt =====
-- What the goroutine of a slash command answers (internal/adapter/handler/slack_commands.go).
use mathlib.Core.Path.{subst}
use alert_bridge.Base.{
  String, ◌≡◌, ◌≢◌, ◌⊎◌, ==-false, eq_iff, refl, ap, inl, inr, false, Bool-cases, none, some, List,
  [], ◌∷◌, ◌==◌, is_set,
}
use alert_bridge.Base.Assoc.{Map}
use alert_bridge.Base.Int.{ℤ, is_positive}
use alert_bridge.Base.Text.{fields, to_lower}
use alert_bridge.Errors.{Result, ok, err}
use alert_bridge.Adapter.SlackCommand.{
  SilenceAction, SilenceRequest, SlackCommandDto, severity_filter, period_filter, create, list,
  delete, open_modal, from_modal, with_parts, default_request, parse_duration,
  parse_silence_request,
}
use alert_bridge.UseCase.Notify.Sending.{Result-cases}
use alert_bridge.UseCase.Slack.ManageSilence.{
  ManageSilenceUseCase, SilenceResult, open_silence_modal, create_silence, list_silences,
  delete_silence, execute, labels_or_none, reasoned, matching, duration_or_default,
}
use alert_bridge.UseCase.Slack.QueryAlertStatus
use alert_bridge.UseCase.Slack.SummarizeAlerts
use alert_bridge.UseCase.World.{World, Effect, modal_opened, fresh_id, now}
use alert_bridge.Entity.AckEvent.{slack}
use alert_bridge.Entity.SilenceMark.{new_silence_mark}
use alert_bridge.UseCase.Slack.ActiveLabels.{get_active_alert_labels}
use alert_bridge.Http.SlackCommands.{
  SlackResponseDto, Process, SlackCommandsHandler, process_command, handle_silence,
  handle_alert_status, handle_summary, send_delayed_response, new_ephemeral_with_blocks,
  new_ephemeral_response, silence_told,
}

with_parts-trigger_id :
    (parts : List String) (req : SilenceRequest)
    → (with_parts parts req).trigger_id ≡ req.trigger_id
with_parts-trigger_id [] req = refl
with_parts-trigger_id (part ∷ parts) req = elim (Bool-cases (to_lower part == "create")) [
  | inl e ↦ rw e refl
  | inr e ↦ elim (Bool-cases (to_lower part == "list")) [
    | inl f ↦ rw (e, f) refl
    | inr f ↦ elim (Bool-cases (to_lower part == "delete")) [
      | inl g ↦ rw (e, f, g) refl
      | inr g ↦ elim (Bool-cases (is_positive (parse_duration (to_lower part)))) [
        | inl k ↦ rw (e, f, g, k) refl
        | inr k ↦ rw (e, f, g, k) refl
      ]
    ]
  ]
]

parse_silence_request-trigger_id :
    (cmd : SlackCommandDto) → (parse_silence_request cmd).trigger_id ≡ cmd.trigger_id
unfolding parse_silence_request
parse_silence_request-trigger_id cmd = with_parts-trigger_id (fields cmd.text) (default_request cmd)

module _ {S : Type 0} where
  -- The last call made to Slack was one that opened a modal with this trigger.
  abbrev pub HasOpened : String → World S → Type 0
  HasOpened trigger w =
      (labels : Map (List String)) × (earlier : List Effect) × (w.sent
        ≡ modal_opened trigger labels ∷ earlier)

  abbrev IsTold : String → Result SilenceResult × World S → Type 0
  IsTold trigger (ok r, w) = (r.opened_modal ≡ false) ⊎ HasOpened trigger w
  IsTold trigger (err e, w) = Unit {0}

  module _ (uc : ManageSilenceUseCase S) (req : SilenceRequest) where
    open_silence_modal-IsTold : (w : World S) → IsTold req.trigger_id (open_silence_modal uc req w)
    unfolding open_silence_modal
    open_silence_modal-IsTold w = elim (Bool-cases (is_set req.trigger_id)) [
      | inl e ↦
          (let (labels, w') = get_active_alert_labels uc.alert_repo w in
            elim (Result-cases
              (uc.slack_client.open_modal w'.sent req.trigger_id (labels_or_none labels))) [
                | inl (r, f) ↦ rw (e, f) (inr (labels_or_none labels, w'.sent, refl))
                | inr (x, f) ↦ rw (e, f) tt
              ])
      | inr e ↦ rw e tt
    ]

    create_silence-IsTold : (w : World S) → IsTold req.trigger_id (create_silence uc req w)
    unfolding create_silence
    create_silence-IsTold w =
        (let (id, w1) = fresh_id w in
          let (at, w2) = now w1 in
          elim (Result-cases (
            new_silence_mark (w.supply.uuid w.drawn) (w.supply.clock w.ticks)
              (duration_or_default req.duration) req.user_name "" slack)) [
                | inl (s, e) ↦
                    elim (Result-cases
                      (uc.silence_repo.save_silence (matching req.matchers (reasoned req.reason s))
                        w2).0) [ inl (u, f) ↦ rw (e, f) (inl refl) | inr (x, f) ↦ rw (e, f) tt ]
                | inr (x, e) ↦ rw e tt
              ])

    list_silences-IsTold : (w : World S) → IsTold req.trigger_id (list_silences uc w)
    unfolding list_silences
    list_silences-IsTold w = elim (Result-cases (uc.silence_repo.find_active_silences w).0) [
      | inl (s, e) ↦ rw e (inl refl)
      | inr (x, e) ↦ rw e tt
    ]

    delete_silence-IsTold : (w : World S) → IsTold req.trigger_id (delete_silence uc req w)
    unfolding delete_silence
    delete_silence-IsTold w = elim (Bool-cases (is_set req.silence_id)) [
      | inl e ↦
          (let (r, w') = uc.silence_repo.find_silence_by_id req.silence_id w in
            elim (Result-cases r) [
              | inl (none, f) ↦ rw (e, f) tt
              | inl (some s, f) ↦
                  elim (Result-cases (uc.silence_repo.delete_silence req.silence_id w').0) [
                    | inl (u, g) ↦ rw (e, f, g) (inl refl)
                    | inr (x, g) ↦ rw (e, f, g) tt
                  ]
              | inr (x, f) ↦ rw (e, f) tt
            ])
      | inr e ↦ rw e tt
    ]

    execute_as-IsTold :
        (w : World S) (action : SilenceAction)
        → req.action ≡ action
        → IsTold req.trigger_id (execute uc req w)
    unfolding execute
    execute_as-IsTold w open_modal e = rw e (open_silence_modal-IsTold w)
    execute_as-IsTold w create e = rw e (create_silence-IsTold w)
    execute_as-IsTold w from_modal e = rw e (create_silence-IsTold w)
    execute_as-IsTold w list e = rw e (list_silences-IsTold w)
    execute_as-IsTold w delete e = rw e (delete_silence-IsTold w)

  command-IsTold :
      (uc : ManageSilenceUseCase S) (cmd : SlackCommandDto) (w : World S)
      → IsTold cmd.trigger_id (execute uc (parse_silence_request cmd) w)
  command-IsTold uc cmd w =
      subst (λ t. IsTold t (execute uc (parse_silence_request cmd) w))
        (parse_silence_request-trigger_id cmd)
        (execute_as-IsTold uc (parse_silence_request cmd) w _ refl)

  -- How the goroutine of a command leaves the process.
  abbrev pub IsAnswered :
      (SlackResponseDto → String) → SlackCommandDto → Process S → Process S → Type 0
  IsAnswered json cmd p p' =
      ((r : SlackResponseDto) × (r.response_type ≡ "ephemeral")
        × (p'.posts ≡ (cmd.response_url, json r) ∷ p.posts))
      ⊎ ((cmd.command ≡ "/silence") × HasOpened cmd.trigger_id p'.world × (p'.posts ≡ p.posts))

  module _ (json : SlackResponseDto → String) (h : SlackCommandsHandler S) (cmd : SlackCommandDto)
      (url : cmd.response_url ≢ "") where
    send_delayed_response-IsAnswered :
        (r : SlackResponseDto) (p p' : Process S)
        → r.response_type ≡ "ephemeral"
        → p'.posts ≡ p.posts
        → IsAnswered json cmd p (send_delayed_response (λ x. some (json x)) cmd.response_url r p')
    unfolding send_delayed_response
    send_delayed_response-IsAnswered r p p' e f =
        rw (==-false cmd.response_url "" url)
          (inl (r, e, ap (λ (ps : List (String × String)). (cmd.response_url, json r) ∷ ps) f))

    handle_alert_status-IsAnswered :
        (p : Process S) → IsAnswered json cmd p (handle_alert_status (λ x. some (json x)) h cmd p)
    unfolding handle_alert_status new_ephemeral_with_blocks new_ephemeral_response
    handle_alert_status-IsAnswered p =
        (let (r, w) = QueryAlertStatus.execute h.alert_repo (severity_filter cmd) p.world in
          elim (Result-cases r) [
            | inl (alerts, e) ↦ rw e (send_delayed_response-IsAnswered _ p _ refl refl)
            | inr (x, e) ↦ rw e (send_delayed_response-IsAnswered _ p _ refl refl)
          ])

    handle_summary-IsAnswered :
        (show : ℤ → String) (hours : ℤ → ℤ) (p : Process S)
        → IsAnswered json cmd p (handle_summary (λ x. some (json x)) show hours h cmd p)
    unfolding handle_summary new_ephemeral_with_blocks new_ephemeral_response
    handle_summary-IsAnswered show hours p =
        (let (r, w) = SummarizeAlerts.execute h.alert_repo (period_filter cmd) p.world in
          elim (Result-cases r) [
            | inl (s, e) ↦ rw e (send_delayed_response-IsAnswered _ p _ refl refl)
            | inr (x, e) ↦ rw e (send_delayed_response-IsAnswered _ p _ refl refl)
          ])

    -- From what the use case tells of its result to the answer.
    silence_told-IsAnswered :
        (r : Result SilenceResult) (w : World S) (p : Process S)
        → cmd.command ≡ "/silence"
        → IsTold cmd.trigger_id (r, w)
        → IsAnswered json cmd p (
            silence_told
              (λ x. some (json x))
              h
              cmd
              (parse_silence_request cmd)
              r
              (record p { world = w }))
    unfolding new_ephemeral_with_blocks new_ephemeral_response
    silence_told-IsAnswered (ok res) w p c (inl e) =
        rw e (send_delayed_response-IsAnswered _ p _ refl refl)
    silence_told-IsAnswered (ok res) w p c (inr opened) = elim (Bool-cases res.opened_modal) [
      | inl e ↦ rw e (inr (c, opened, refl))
      | inr e ↦ rw e (send_delayed_response-IsAnswered _ p _ refl refl)
    ]
    silence_told-IsAnswered (err x) w p c told = send_delayed_response-IsAnswered _ p _ refl refl

    handle_silence-IsAnswered :
        (p : Process S)
        → cmd.command ≡ "/silence"
        → IsAnswered json cmd p (handle_silence (λ x. some (json x)) h cmd p)
    unfolding handle_silence
    handle_silence-IsAnswered p c =
        silence_told-IsAnswered _ _ p c (command-IsTold h.manage_silence cmd p.world)

    -- Where a response URL is given and every response has a JSON, the goroutine of a slash command,
    -- whatever the command and its text are, and whatever the stores and Slack answer, does one of
    -- two things. It posts one response to that URL, which only the user sees. Or it posts none, the
    -- command is /silence, and the last call made to Slack opened a modal for the trigger of the
    -- command.
    pub process_command-IsAnswered :
        (show : ℤ → String) (hours : ℤ → ℤ) (p : Process S)
        → IsAnswered json cmd p (process_command (λ x. some (json x)) show hours h cmd p)
    unfolding process_command new_ephemeral_response
    process_command-IsAnswered show hours p = elim (Bool-cases (cmd.command == "/alert-status")) [
      | inl e ↦ rw e (handle_alert_status-IsAnswered p)
      | inr e ↦ elim (Bool-cases (cmd.command == "/summary")) [
        | inl f ↦ rw (e, f) (handle_summary-IsAnswered show hours p)
        | inr f ↦ elim (Bool-cases (cmd.command == "/silence")) [
          | inl g ↦ rw (e, f, g) (handle_silence-IsAnswered p ((eq_iff _ _).0 g))
          | inr g ↦ rw (e, f, g) (send_delayed_response-IsAnswered _ p _ refl refl)
        ]
      ]
    ]
