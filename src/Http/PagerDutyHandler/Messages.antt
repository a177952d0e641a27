-- ===== src/Http/PagerDutyHandler/Messages.antt =====
-- How the handler of internal/adapter/handler/pagerduty.go counts the messages of a payload.
use alert_bridge.Base.{
  suc, ◌+◌, ◌≤◌, ◌≡◌, inl, inr, refl, sym, ap, ◌∙◌, true, false, Bool-cases, List, [], ◌∷◌,
  if◌then◌else◌, length, arith,
}
use alert_bridge.Errors.{Result, ok, err}
use alert_bridge.UseCase.PagerDutyWebhook.{
  HandlePagerDutyWebhookOutput, HandleWebhookUseCase, execute,
}
use alert_bridge.UseCase.World.{World}
use alert_bridge.Http.PagerDutyHandler.{
  PagerDutyWebhookEvent, is_supported_event_type, to_webhook_input, Tally, tallied, process_message,
  process_messages,
}

tallied-le :
    (r : Result HandlePagerDutyWebhookOutput) (n : Tally)
    → (tallied r n).processed + (tallied r n).skipped ≤ suc (n.processed + n.skipped)
tallied-le (ok out) n = ground arith
tallied-le (err e) n = omega arith

module _ {S : Type 0} (uc : HandleWebhookUseCase S) where
  process_message-le :
      (e : PagerDutyWebhookEvent) (n : Tally) (w : World S)
      → (process_message uc e n w).0.processed + (process_message uc e n w).0.skipped
        ≤ suc (n.processed + n.skipped)
  unfolding process_message
  process_message-le e n w = elim (Bool-cases (is_supported_event_type e.event_type)) [
    | inl s ↦ rw (s) (tallied-le (execute uc (to_webhook_input e) w).0 n)
    | inr s ↦ rw (s) (omega arith)
  ]

  -- No message of a payload is counted twice; one that fails is not counted at all.
  pub process_messages-le :
      (es : List PagerDutyWebhookEvent) (n : Tally) (w : World S)
      → (process_messages uc es n w).0.processed + (process_messages uc es n w).0.skipped
        ≤ n.processed + n.skipped + length es
  unfolding process_messages
  process_messages-le [] n w = omega arith
  process_messages-le (e ∷ es) n w =
      let r = process_message uc e n w in
      omega (arith, process_message-le e n w, process_messages-le es r.0 r.1)

  abbrev pub supported : List PagerDutyWebhookEvent → List PagerDutyWebhookEvent
  supported [] = []
  supported (e ∷ es) =
      let rest = supported es in if is_supported_event_type e.event_type then e ∷ rest else rest

  process_message-supported :
      (e : PagerDutyWebhookEvent) (n : Tally) (w : World S)
      → is_supported_event_type e.event_type ≡ true
      → process_message uc e n w
        ≡ (tallied (execute uc (to_webhook_input e) w).0 n, (execute uc (to_webhook_input e) w).1)
  unfolding process_message
  process_message-supported e n w s = rw (s) refl

  process_message-unsupported :
      (e : PagerDutyWebhookEvent) (n : Tally) (w : World S)
      → is_supported_event_type e.event_type ≡ false
      → process_message uc e n w ≡ (record n { skipped = suc n.skipped }, w)
  unfolding process_message
  process_message-unsupported e n w s = rw (s) refl

  -- A message of a type that is not supported changes nothing: a payload leaves the world that its
  -- supported messages alone leave, whatever the counts are.
  pub process_messages-supported :
      (es : List PagerDutyWebhookEvent) (n m : Tally) (w : World S)
      → (process_messages uc es n w).1 ≡ (process_messages uc (supported es) m w).1
  unfolding process_messages
  process_messages-supported [] n m w = refl
  process_messages-supported (e ∷ es) n m w =
      elim (Bool-cases (is_supported_event_type e.event_type)) [
        | inl s ↦ rw (s) (
            ap (λ p. (process_messages uc es p.0 p.1).1) (process_message-supported e n w s)
            ∙ process_messages-supported es _ _ _
            ∙ sym (
                ap (λ p. (process_messages uc (supported es) p.0 p.1).1)
                  (process_message-supported e m w s)))
        | inr s ↦ rw (s) (
            ap (λ p. (process_messages uc es p.0 p.1).1) (process_message-unsupported e n w s)
            ∙ process_messages-supported es _ m w)
      ]
