-- ===== src/Http/Router.antt =====
-- internal/infrastructure/server/router.go: which handler a path has, and which middleware stands in
-- front of it. `none` is a nil handler; the logging, metrics and timeout middleware are left out, and the
-- path is the one that http.ServeMux has cleaned.
pub mod Protected
use alert_bridge.Base.{ℕ, String, Bool, Option, none, some, ◌==◌, is_set, if◌then◌else◌}
use alert_bridge.Http.Request.{Request, Response, Handler}
use alert_bridge.Http.Auth.{slack_auth, pager_duty_auth, alertmanager_auth}

pub record Handlers (W : Type 0) : Type 0 where
  pub alertmanager : Option (Handler W)
  pub slack_commands : Option (Handler W)
  pub slack_interaction : Option (Handler W)
  pub slack_events : Option (Handler W)
  pub pager_duty_webhook : Option (Handler W)
  pub health : Handler W
  pub ready : Option (Handler W)
  pub reload : Option (Handler W)
  pub metrics : Option (Handler W)

-- `config_secret` reads the secret of PagerDuty from the ConfigManager, `none` where there is no manager.
pub record RouterConfig (W : Type 0) : Type 0 where
  pub config_secret : Option (W → String)
  pub alertmanager_webhook_secret : String
  pub slack_signing_secret : String
  pub pager_duty_webhook_secret : String

abbrev or_handler : {W : Type 0} → Option (Handler W) → Handler W → Handler W
or_handler none h = h
or_handler (some g) h = g

abbrev pub mounted :
    {W : Type 0} → (Handler W → Handler W) → Option (Handler W) → Handler W → Handler W
mounted guard none health = health
mounted guard (some h) health = guard h

abbrev pub secret_getter : {W : Type 0} → RouterConfig W → W → String
secret_getter cfg w = elim cfg.config_secret [
  | none ↦ cfg.pager_duty_webhook_secret
  | some read ↦ read w
]

module _ (hmac_hex : String → String → String) (now : ℕ) {W : Type 0} where
  abbrev pub guarded_slack : Option (RouterConfig W) → Handler W → Handler W
  guarded_slack none h = h
  guarded_slack (some cfg) h =
      if is_set cfg.slack_signing_secret
      then slack_auth hmac_hex now cfg.slack_signing_secret h
      else h

  abbrev pub guarded_alertmanager : Option (RouterConfig W) → Handler W → Handler W
  guarded_alertmanager none h = h
  guarded_alertmanager (some cfg) h =
      if is_set cfg.alertmanager_webhook_secret
      then alertmanager_auth hmac_hex cfg.alertmanager_webhook_secret h
      else h

  abbrev pub guarded_pager_duty : Option (RouterConfig W) → Handler W → Handler W
  guarded_pager_duty none h = h
  guarded_pager_duty (some cfg) h = pager_duty_auth hmac_hex (secret_getter cfg) h

  -- The handler registered for the path, behind its middleware. A path with no handler of its own falls
  -- to "/", which is the health check.
  unfoldable pub route : Handlers W → Option (RouterConfig W) → String → Handler W
  route hs cfg path =
      if path == "/webhook/alertmanager"
      then mounted (guarded_alertmanager cfg) hs.alertmanager hs.health
      else if path == "/webhook/slack/commands"
      then mounted (guarded_slack cfg) hs.slack_commands hs.health
      else if path == "/webhook/slack/interactions"
      then mounted (guarded_slack cfg) hs.slack_interaction hs.health
      else if path == "/webhook/slack/events"
      then mounted (guarded_slack cfg) hs.slack_events hs.health
      else if path == "/webhook/pagerduty"
      then mounted (guarded_pager_duty cfg) hs.pager_duty_webhook hs.health
      else if path == "/-/reload"
      then or_handler hs.reload hs.health
      else if path == "/metrics"
      then or_handler hs.metrics hs.health
      else if path == "/ready"
      then or_handler hs.ready hs.health
      else hs.health

  -- The handler that NewRouterWithConfig returns.
  unfoldable pub router : Handlers W → Option (RouterConfig W) → Handler W
  router hs cfg r w = route hs cfg r.path r w
