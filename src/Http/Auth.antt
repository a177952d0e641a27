-- ===== src/Http/Auth.antt =====
-- internal/adapter/handler/middleware: slack_auth.go, pagerduty_auth.go and alertmanager_auth.go.
-- `hmac_hex secret message` is the HMAC-SHA256 of the message in hexadecimal, of the libraries. A body
-- that was read is given to the handler again, so the request stays the same.
pub mod Freshness
pub mod Guards
use alert_bridge.Base.{
  ℕ, suc, ◌+◌, ◌-◌, ◌%◌, ◌^◌, String, Bool, true, false, not, ◌&&◌, ◌||◌, Option, none, some, List,
  [], ◌∷◌, ◌==◌, is_set, if◌then◌else◌,
}
use alert_bridge.Base.Int.{ℤ, pos, negsuc, to_int64, ltb_ℤ}
use alert_bridge.Base.Text.{parse_int, cut}
use alert_bridge.UseCase.Slack.Durations.{◌+++◌}
use alert_bridge.Http.Request.{Request, Response, Handler, header, header_values, deny}

-- An int64 modulo 2^64.
abbrev pub residue : ℤ → ℕ
residue (pos n) = n % 2 ^ 64
residue (negsuc n) = 2 ^ 64 - 1 - n % 2 ^ 64

-- a - b on int64
unfoldable pub sub_int64 : ℤ → ℤ → ℤ
sub_int64 a b = to_int64 (residue a + (2 ^ 64 - residue b))

-- abs: -n wraps around for the least int64.
unfoldable pub abs : ℤ → ℤ
abs (pos n) = pos n
abs (negsuc n) = to_int64 (suc n)

-- abs(now-ts) > 60*5
unfoldable pub is_too_old : ℕ → ℤ → Bool
is_too_old now ts = ltb_ℤ (pos 300) (abs (sub_int64 (pos now) ts))

abbrev pub timestamp : Request → String
timestamp r = header "X-Slack-Request-Timestamp" r

abbrev pub has_matching : Option (String × String) → String → Bool
has_matching none expected = false
has_matching (some (version, signature)) expected = (version == "v1") && (signature == expected)

module _ (hmac_hex : String → String → String) where
  abbrev pub slack_signature : String → String → String → String
  slack_signature secret ts body = "v0=" +++ hmac_hex secret ("v0:" +++ ts +++ ":" +++ body)

  abbrev pub dated : ℕ → Option ℤ → Bool → Bool
  dated now none matches = false
  dated now (some ts) matches = not (is_too_old now ts) && matches

  -- verifySlackSignature returns nil; `now` is time.Now().Unix().
  unfoldable pub verify_slack_signature : ℕ → Request → String → String → Bool
  verify_slack_signature now r body secret =
      is_set (timestamp r)
      && is_set (header "X-Slack-Signature" r)
      && dated now (parse_int (timestamp r))
          (header "X-Slack-Signature" r == slack_signature secret (timestamp r) body)

  -- The loop over the signatures: one that matches is enough.
  unfoldable pub verify_pager_duty_signature : String → List String → String → Bool
  verify_pager_duty_signature body [] secret = false
  verify_pager_duty_signature body (sig ∷ sigs) secret =
      has_matching (cut "=" sig) (hmac_hex secret body)
      || verify_pager_duty_signature body sigs secret

  unfoldable pub verify_alertmanager_signature : String → String → String → Bool
  verify_alertmanager_signature body signature secret =
      has_matching (cut "=" signature) (hmac_hex secret body)

  module _ {W : Type 0} where
    abbrev pub slack_checked : ℕ → String → Handler W → Option String → Handler W
    slack_checked now secret next none r w = deny 400 "failed to read body" w
    slack_checked now secret next (some body) r w =
        if verify_slack_signature now r body secret
        then next r w
        else deny 401 "invalid signature" w

    unfoldable pub slack_auth : ℕ → String → Handler W → Handler W
    slack_auth now secret next r w =
        if (r.method == "GET") || not (is_set secret)
        then next r w
        else slack_checked now secret next r.body r w

    abbrev pub signed_by : String → Handler W → List String → String → Handler W
    signed_by secret next [] body r w = deny 401 "missing signature" w
    signed_by secret next (sig ∷ sigs) body r w =
        if verify_pager_duty_signature body (sig ∷ sigs) secret
        then next r w
        else deny 401 "invalid signature" w

    abbrev pub pager_duty_checked : String → Handler W → Option String → Handler W
    pager_duty_checked secret next none r w = deny 400 "failed to read body" w
    pager_duty_checked secret next (some body) r w =
        signed_by secret next (header_values "X-PagerDuty-Signature" r) body r w

    -- The secret is read at each request.
    unfoldable pub pager_duty_auth : (W → String) → Handler W → Handler W
    pager_duty_auth secret_getter next r w =
        if not (is_set (secret_getter w))
        then next r w
        else pager_duty_checked (secret_getter w) next r.body r w

    abbrev pub alertmanager_checked : String → Handler W → Option String → Handler W
    alertmanager_checked secret next none r w = deny 400 "invalid request" w
    alertmanager_checked secret next (some body) r w =
        if verify_alertmanager_signature body (header "X-Alertmanager-Signature" r) secret
        then next r w
        else deny 401 "invalid signature" w

    unfoldable pub alertmanager_auth : String → Handler W → Handler W
    alertmanager_auth secret next r w =
        if not (is_set secret)
        then next r w
        else if not (is_set (header "X-Alertmanager-Signature" r))
        then deny 401 "missing signature" w
        else alertmanager_checked secret next r.body r w
