-- ===== src/Http/AlertmanagerHandler.antt =====
-- internal/adapter/handler/alertmanager.go: POST /webhook/alertmanager. `decode` is the JSON decoder on
-- the body, `none` for an error; the entries of the payload that nothing reads are left out.
pub mod Payload
use alert_bridge.Base.{
  ℕ, suc, ◌+◌, String, Bool, Option, none, some, List, [], ◌∷◌, ◌==◌, if◌then◌else◌,
}
use alert_bridge.Base.Text.{itoa}
use alert_bridge.UseCase.Slack.Durations.{◌+++◌}
use alert_bridge.Errors.{Error, Result, ok, err}
use alert_bridge.UseCase.AlertInput.{
  AlertmanagerAlert, ProcessAlertInput, ProcessAlertOutput, to_process_alert_input,
}
use alert_bridge.UseCase.Notify.{ProcessAlertUseCase}
use alert_bridge.UseCase.ProcessAlert.{execute}
use alert_bridge.UseCase.World.{World}
use alert_bridge.Http.Request.{Request, Response, Handler, deny}

pub record AlertmanagerWebhook : Type 0 where
  pub status : String
  pub receiver : String
  pub alerts : List AlertmanagerAlert

pub record Counts : Type 0 where
  pub processed : ℕ
  pub failed : ℕ

abbrev pub counted : {A : Type 0} → Result A → Counts → Counts
counted (ok a) n = record n { processed = suc n.processed }
counted (err e) n = record n { failed = suc n.failed }

abbrev counts_body : Counts → String
counts_body n =
    "{\"failed\":"
    +++ itoa n.failed
    +++ ",\"processed\":"
    +++ itoa n.processed
    +++ ",\"status\":\"ok\"}\n"

module _ {S : Type 0} (uc : ProcessAlertUseCase S) where
  -- The loop over the payload: an alert that fails is counted, and the next one is tried.
  unfoldable pub process_alerts : List AlertmanagerAlert → Counts → World S → Counts × World S
  process_alerts [] n w = (n, w)
  process_alerts (a ∷ alerts) n w =
      let (r, w') = execute uc (to_process_alert_input a) w in
      process_alerts alerts (counted r n) w'

  abbrev answered : Option AlertmanagerWebhook → World S → Response × World S
  answered none w = deny 400 "invalid payload" w
  answered (some payload) w =
      let (n, w') = process_alerts payload.alerts (record { processed = 0; failed = 0 }) w in
      (record { status = 200; body = counts_body n }, w')

  -- (*AlertmanagerHandler).ServeHTTP
  unfoldable pub serve_alertmanager :
      (Option String → Option AlertmanagerWebhook) → Handler (World S)
  serve_alertmanager decode r w =
      if r.method == "POST" then answered (decode r.body) w else deny 405 "method not allowed" w
