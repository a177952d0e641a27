-- ===== src/Http/Router/Protected.antt =====
-- Which requests reach the webhooks behind the router of internal/infrastructure/server/router.go.
use mathlib.Core.Path.{subst}
use alert_bridge.Base.{
  ℕ, ◌<◌, ◌^◌, String, ◌≡◌, ◌≢◌, ◌⊎◌, inl, inr, refl, sym, ap, ◌∙◌, Option, some, ==-false, is_set,
  if◌then◌else◌,
}
use alert_bridge.Http.Request.{Request, Response, Handler, header, header_values}
use alert_bridge.Http.Auth.{slack_auth}
use alert_bridge.Http.Auth.Guards.{
  IsGuarded, IsSlackSigned, SomeV1Signed, IsV1Signed, slack_auth-IsGuarded,
  pager_duty_auth-IsGuarded, alertmanager_auth-IsGuarded,
}
use alert_bridge.Http.Router.{
  Handlers, RouterConfig, secret_getter, guarded_slack, guarded_alertmanager, guarded_pager_duty,
  mounted, route, router,
}

IsGuarded-by :
    {W : Type 0} {P : Type 0} {a b next : Response × W} {w : W}
    → a ≡ b
    → IsGuarded P b next w
    → IsGuarded P a next w
IsGuarded-by {P = P} {next = next} {w = w} e g = subst (λ x. IsGuarded P x next w) (sym e) g

-- if the secret is set, the guard stands in front.
guard_set :
    {W : Type 0} (secret : String) (g h : Handler W) (r : Request) (w : W)
    → secret ≢ ""
    → (if is_set secret then g else h) r w ≡ g r w
guard_set secret g h r w s = rw (==-false secret "" s) refl

module _ (hmac_hex : String → String → String) (now : ℕ) {W : Type 0} (hs : Handlers W)
    (cfg : RouterConfig W) (h : Handler W) (r : Request) (w : W) where
  -- Behind the router, with a webhook secret, a request to /webhook/alertmanager reaches its handler
  -- exactly when its body is signed under the secret; any other is answered by 400 or 401 and changes
  -- nothing.
  pub router-alertmanager :
      hs.alertmanager ≡ some h
      → r.path ≡ "/webhook/alertmanager"
      → cfg.alertmanager_webhook_secret ≢ ""
      → IsGuarded
          (IsV1Signed hmac_hex cfg.alertmanager_webhook_secret
            (header "X-Alertmanager-Signature" r)
            r.body)
          (router hmac_hex now hs (some cfg) r w)
          (h r w)
          w
  unfolding router route
  router-alertmanager e p s =
      IsGuarded-by
        (ap (λ p. route hmac_hex now hs (some cfg) p r w) p
          ∙ ap (λ o. mounted (guarded_alertmanager hmac_hex now (some cfg)) o hs.health r w) e
          ∙ guard_set cfg.alertmanager_webhook_secret _ h r w s)
        (alertmanager_auth-IsGuarded hmac_hex h r w cfg.alertmanager_webhook_secret s)

  -- Behind the router, with a secret in the configuration when the request comes, a request to
  -- /webhook/pagerduty reaches its handler exactly when one of its signatures signs its body under that
  -- secret; any other is answered by 400 or 401 and changes nothing.
  pub router-pager_duty :
      hs.pager_duty_webhook ≡ some h
      → r.path ≡ "/webhook/pagerduty"
      → secret_getter cfg w ≢ ""
      → IsGuarded
          (SomeV1Signed hmac_hex
            (secret_getter cfg w)
            (header_values "X-PagerDuty-Signature" r)
            r.body)
          (router hmac_hex now hs (some cfg) r w)
          (h r w)
          w
  unfolding router route
  router-pager_duty e p s =
      IsGuarded-by
        (ap (λ p. route hmac_hex now hs (some cfg) p r w) p
          ∙ ap (λ o. mounted (guarded_pager_duty hmac_hex now (some cfg)) o hs.health r w) e)
        (pager_duty_auth-IsGuarded hmac_hex h r w (secret_getter cfg) s)

  -- The handler of one of the paths of Slack.
  abbrev IsSlackPath : Type 0
  IsSlackPath =
      ((r.path ≡ "/webhook/slack/commands") × (hs.slack_commands ≡ some h))
      ⊎ ((r.path ≡ "/webhook/slack/interactions") × (hs.slack_interaction ≡ some h))
      ⊎ ((r.path ≡ "/webhook/slack/events") × (hs.slack_events ≡ some h))

  to_slack :
      (path : String) (o : Option (Handler W))
      → ((q : String)
          → q ≡ path
          → route hmac_hex now hs (some cfg) q
            ≡ mounted (guarded_slack hmac_hex now (some cfg)) o hs.health)
      → r.path ≡ path
      → o ≡ some h
      → cfg.slack_signing_secret ≢ ""
      → router hmac_hex now hs (some cfg) r w
        ≡ slack_auth hmac_hex now cfg.slack_signing_secret h r w
  unfolding router
  to_slack path o at p e s =
      ap (λ k. k r w) (at r.path p)
      ∙ ap (λ o. mounted (guarded_slack hmac_hex now (some cfg)) o hs.health r w) e
      ∙ guard_set cfg.slack_signing_secret _ h r w s

  slack_path :
      IsSlackPath
      → cfg.slack_signing_secret ≢ ""
      → router hmac_hex now hs (some cfg) r w
        ≡ slack_auth hmac_hex now cfg.slack_signing_secret h r w
  unfolding route
  slack_path (inl (p, e)) s =
      to_slack "/webhook/slack/commands" hs.slack_commands
        (λ q i. ap (route hmac_hex now hs (some cfg)) i) p e s
  slack_path (inr (inl (p, e))) s =
      to_slack "/webhook/slack/interactions" hs.slack_interaction
        (λ q i. ap (route hmac_hex now hs (some cfg)) i) p e s
  slack_path (inr (inr (p, e))) s =
      to_slack "/webhook/slack/events" hs.slack_events
        (λ q i. ap (route hmac_hex now hs (some cfg)) i) p e s

  -- Behind the router, with a signing secret and a clock of at most 62 bits: a request that is not a GET
  -- to one of the three paths of Slack reaches its handler exactly when it has a body, its timestamp is a
  -- number at most 300 seconds away from the clock (or 2^63 seconds before it), and its signature is
  -- "v0=" and the HMAC under the secret of "v0:", the timestamp, ":" and the body. Any other is
  -- answered by 400 or 401 and changes nothing.
  pub router-slack :
      IsSlackPath
      → now < 2 ^ 62
      → r.method ≢ "GET"
      → cfg.slack_signing_secret ≢ ""
      → IsGuarded
          (IsSlackSigned hmac_hex now cfg.slack_signing_secret r r.body)
          (router hmac_hex now hs (some cfg) r w)
          (h r w)
          w
  router-slack q b m s =
      IsGuarded-by (slack_path q s)
        (slack_auth-IsGuarded hmac_hex h r w now cfg.slack_signing_secret b m s)
