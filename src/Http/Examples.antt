-- ===== src/Http/Examples.antt =====
-- Tests and instances for the HTTP side.
use alert_bridge.Base.{
  ℕ, suc, String, ◌≡◌, ◌≢◌, ◌↔◌, inr, refl, true, false, none, some, [], ◌∷◌, eq_iff, arith,
}
use alert_bridge.Base.Int.{negsuc, to_int64}
use alert_bridge.Memory.AlertRepository.Firing.{IsDeduplicated}
use alert_bridge.Memory.Examples.{one_alert-IsDeduplicated}
use alert_bridge.UseCase.AlertInput.{AlertmanagerAlert}
use alert_bridge.UseCase.MemoryStores.{Stores}
use alert_bridge.UseCase.ProcessAlert.Dedup
use alert_bridge.UseCase.PagerDutyWebhook.{HandleWebhookUseCase}
use alert_bridge.UseCase.PagerDutyWebhook.Examples.{webhook}
use alert_bridge.UseCase.PagerDutyWebhook.Found
use alert_bridge.Samples.{use_case, morning}
use alert_bridge.Http.Request.{Request, Handler, header, header_values}
use alert_bridge.Http.Auth.{is_too_old, sub_int64, abs}
use alert_bridge.Http.Auth.Freshness.{IsNear, is_too_old_iff}
use alert_bridge.Http.Auth.Guards.{IsGuarded, IsSlackSigned, IsV1Signed, SomeV1Signed}
use alert_bridge.Http.AlertmanagerHandler.{AlertmanagerWebhook, serve_alertmanager}
use alert_bridge.Http.AlertmanagerHandler.Payload.{serve_alertmanager-dedup}
use alert_bridge.Http.PagerDutyHandler.{PagerDutyWebhookEvent, Tally, process_messages}
use alert_bridge.Http.PagerDutyHandler.Messages.{supported, process_messages-supported}
use alert_bridge.Http.Router.{Handlers, RouterConfig, router}
use alert_bridge.Http.Router.Protected.{router-alertmanager, router-pager_duty, router-slack}
use alert_bridge.Http.Timeout.{write_header, write, Exchange, start, Reach, body_lost}

abbrev hash : String → String → String
hash secret message = secret

-- Whatever it is asked, it answers 200 and counts.
abbrev counter : Handler ℕ
counter r n = (record { status = 200; body = "" }, suc n)

abbrev handlers : Handlers ℕ
handlers = record {
  alertmanager = some counter;
  slack_commands = some counter;
  slack_interaction = some counter;
  slack_events = some counter;
  pager_duty_webhook = some counter;
  health = λ r n. (record { status = 200; body = "ok" }, n);
  ready = none;
  reload = none;
  metrics = none;
}

abbrev secrets : RouterConfig ℕ
secrets = record {
  config_secret = none;
  alertmanager_webhook_secret = "abc";
  slack_signing_secret = "abc";
  pager_duty_webhook_secret = "abc";
}

abbrev posted : String → Request
posted path = record { method = "POST"; path = path; headers = []; body = some "{}" }

secret_set : secrets.slack_signing_secret ≢ ""
secret_set e = ground (arith, eq_iff "abc" "")

post_not_get : (posted "/").method ≢ "GET"
post_not_get e = ground (arith, eq_iff "POST" "GET")

hashed_message :
    IsGuarded
      (IsV1Signed hash "abc"
        (header "X-Alertmanager-Signature" (posted "/webhook/alertmanager"))
        (some "{}"))
      (router hash 100 handlers (some secrets) (posted "/webhook/alertmanager") 0)
      (counter (posted "/webhook/alertmanager") 0)
      0
hashed_message =
    router-alertmanager hash 100 handlers secrets counter (posted "/webhook/alertmanager") 0 refl
      refl secret_set

router-pager_duty_example :
    IsGuarded
      (SomeV1Signed hash "abc"
        (header_values "X-PagerDuty-Signature" (posted "/webhook/pagerduty"))
        (some "{}"))
      (router hash 100 handlers (some secrets) (posted "/webhook/pagerduty") 0)
      (counter (posted "/webhook/pagerduty") 0)
      0
router-pager_duty_example =
    router-pager_duty hash 100 handlers secrets counter (posted "/webhook/pagerduty") 0 refl refl
      secret_set

router-slack_example :
    IsGuarded
      (IsSlackSigned hash 100 "abc" (posted "/webhook/slack/events") (some "{}"))
      (router hash 100 handlers (some secrets) (posted "/webhook/slack/events") 0)
      (counter (posted "/webhook/slack/events") 0)
      0
router-slack_example =
    router-slack hash 100 handlers secrets counter (posted "/webhook/slack/events") 0
      (inr (inr (refl, refl))) (omega arith) post_not_get secret_set

-- The distance of the least timestamps wraps around.
fresh_long_ago : is_too_old 1_700_000_000 (negsuc 9_223_372_035_154_775_807) ≡ false
unfolding is_too_old sub_int64 abs to_int64
fresh_long_ago = refl

is_too_old_iff_example :
    (is_too_old 1_700_000_000 (negsuc 9_223_372_035_154_775_807) ≡ false)
    ↔ IsNear 1_700_000_000 (negsuc 9_223_372_035_154_775_807)
is_too_old_iff_example =
    is_too_old_iff 1_700_000_000 (negsuc 9_223_372_035_154_775_807) (omega arith) (omega arith)

abbrev disk_alert : AlertmanagerAlert
disk_alert = record {
  status = "firing";
  labels = ("alertname", "DiskFull") ∷ [];
  annotations = [];
  starts_at = 95;
  ends_at = 0;
  generator_url = "";
  fingerprint = "fp-1";
}

abbrev payload : AlertmanagerWebhook
payload = record { status = "firing"; receiver = "bridge"; alerts = disk_alert ∷ disk_alert ∷ [] }

serve_alertmanager-dedup_example :
    IsDeduplicated
      (serve_alertmanager
        (Dedup.in_memory use_case)
        (λ body. some payload)
        (posted "/webhook/alertmanager")
        morning).1.store.alerts
serve_alertmanager-dedup_example =
    serve_alertmanager-dedup use_case (λ body. some payload) (posted "/webhook/alertmanager")
      morning one_alert-IsDeduplicated

abbrev noted : PagerDutyWebhookEvent
noted = record {
  event_type = "incident.annotated";
  agent = none;
  data_of = record {
    id = "P-1";
    status = "triggered";
    incident_key = "fp-1";
    acknowledgers = [];
    last_status_change_by = none;
    resolve_reason = "";
  };
}

abbrev closed : PagerDutyWebhookEvent
closed = record noted { event_type = "incident.resolved" }

abbrev nothing : Tally
nothing = record { processed = 0; skipped = 0 }

abbrev hook : HandleWebhookUseCase Stores
hook = Found.in_memory webhook

unsupported_noted :
    (process_messages hook (noted ∷ closed ∷ []) nothing morning).1
    ≡ (process_messages hook (supported hook (noted ∷ closed ∷ [])) nothing morning).1
unsupported_noted = process_messages-supported hook (noted ∷ closed ∷ []) nothing nothing morning

body_lost_example :
    (x : Exchange) × Reach (start (write_header 200 ∷ write "{}" ∷ [])) x
    × (x.returned ≡ true)
    × (x.status ≡ some 200)
    × (x.sent ≡ [])
body_lost_example = body_lost 200 (write "{}" ∷ [])
