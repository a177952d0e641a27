-- ===== src/Presenter/Message/Buttons.antt =====
-- What the buttons of a message of internal/infrastructure/slack/message_builder.go say when they are
-- pressed: the action ids that internal/usecase/slack/handle_interaction.go reads, and the durations.
use alert_bridge.Base.{String, ◌≡◌, refl, Bool, true, false, List, [], ◌∷◌, map}
use alert_bridge.Base.Int.{ℤ, pos, ◌<ℤ◌}
use alert_bridge.Base.Text.{cut, append-followed_by}
use alert_bridge.UseCase.Slack.Durations.{◌+++◌}
use alert_bridge.UseCase.Slack.HandleInteraction.{parse_action_id}
use alert_bridge.Config.Validator.Valid.{AllPositive}
use alert_bridge.Errors.{Result, ok}
use alert_bridge.Presenter.Blocks.{Element, button, select}
use alert_bridge.Presenter.Message.{ack_button, silence_select, action_elements, format_duration}

parse_ack : (id : String) → parse_action_id ("ack_" +++ id) ≡ ("ack", id)
unfolding parse_action_id cut
parse_ack id = rw (append-followed_by "ack_" id) refl

parse_silence : (id : String) → parse_action_id ("silence_" +++ id) ≡ ("silence", id)
unfolding parse_action_id cut
parse_silence id = rw (append-followed_by "silence_" id) refl

module _ (parse_duration : String → Result ℤ) where
  -- The options stand for these durations, in their order, and each is positive.
  abbrev AllParsed : List (String × String) → List ℤ → Type 0
  AllParsed [] [] = Unit
  AllParsed ((value, text) ∷ options) (d ∷ ds) =
      (parse_duration value ≡ ok d) × (pos 0 <ℤ d) × AllParsed options ds
  AllParsed _ _ = ⊥

  -- What is read when the element is used: the button acknowledges its alert, and the list silences it
  -- for one of the durations.
  abbrev IsFor : String → List ℤ → Element → Type 0
  IsFor id ds (button action_id value text) =
      (parse_action_id action_id ≡ ("ack", id)) × (value ≡ id)
  IsFor id ds (select action_id placeholder options) =
      (parse_action_id action_id ≡ ("silence", id)) × AllParsed options ds

  abbrev pub AllFor : String → List ℤ → List Element → Type 0
  AllFor id ds [] = Unit
  AllFor id ds (e ∷ es) = IsFor id ds e × AllFor id ds es

  module _ (show_duration : ℤ → String)
      (reads : (d : ℤ) → parse_duration (show_duration d) ≡ ok d) where
    options-AllParsed :
        (ds : List ℤ)
        → AllPositive ds
        → AllParsed (map (λ d. (show_duration d, format_duration d)) ds) ds
    options-AllParsed [] p = tt
    options-AllParsed (d ∷ ds) (q, p) = (reads d, q, options-AllParsed ds p)

    -- The elements of a message speak of its alert, whatever characters its id has, if
    -- time.ParseDuration reads what Duration.String writes and the configured durations are positive,
    -- as in a valid configuration: the button is read as an acknowledgement of the alert, and the list as
    -- a silence of it for one of the durations.
    pub action_elements-AllFor :
        (id : String) (ds : List ℤ) (show_ack show_silence : Bool)
        → AllPositive ds
        → AllFor id ds (action_elements show_duration ds id show_ack show_silence)
    unfolding action_elements ack_button silence_select
    action_elements-AllFor id ds true true p =
        ((parse_ack id, refl), ((parse_silence id, options-AllParsed ds p), tt))
    action_elements-AllFor id ds true false p = ((parse_ack id, refl), tt)
    action_elements-AllFor id ds false true p = ((parse_silence id, options-AllParsed ds p), tt)
    action_elements-AllFor id ds false false p = tt
