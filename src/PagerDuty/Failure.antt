-- ===== src/PagerDuty/Failure.antt =====
-- What a failed request says, and categorizePagerDutyError and sendEventHTTP of
-- internal/infrastructure/pagerduty/client.go. An error of a library is what errors.As and errors.Is
-- find in it.
use alert_bridge.Base.{
  ℕ, ◌+◌, ◌≤◌, ◌<◌, String, ◌≡◌, ◌↔◌, ◌⊎◌, refl, Bool, true, false, not, ◌&&◌, ◌||◌, Option, none,
  some, ltb, eqb, if◌then◌else◌, arith,
}
use alert_bridge.Base.Text.{itoa}
use alert_bridge.UseCase.Slack.Durations.{◌+++◌}
use alert_bridge.Errors.{Error, domain_caused, other, transient, permanent, is_transient_error}

-- `is_network` is errors.As(err, *net.Error), `api_status` the StatusCode of a pagerduty.APIError,
-- `is_context` a deadline or a cancellation of the context, and `message` err.Error().
pub record Failure : Type 0 where
  pub is_network : Bool
  pub api_status : Option ℕ
  pub is_context : Bool
  pub message : String

abbrev caused : Failure → Error
caused f = other f.message

abbrev transient_error : String → Failure → Error
transient_error m f = domain_caused transient m (caused f)

abbrev permanent_error : String → Failure → Error
permanent_error m f = domain_caused permanent m (caused f)

abbrev pub in_range : ℕ → ℕ → ℕ → Bool
in_range low high n = ltb low (n + 1) && ltb n high

-- The tests after that of pagerduty.APIError.
abbrev after_status : String → Failure → Error
after_status operation f =
    if f.is_context
    then transient_error (operation +++ ": context timeout") f
    else permanent_error (operation +++ ": " +++ f.message) f

abbrev by_status : String → Failure → Option ℕ → Error
by_status operation f none = after_status operation f
by_status operation f (some n) =
    if eqb n 429
    then transient_error (operation +++ ": rate limited") f
    else if in_range 500 600 n
    then transient_error (operation +++ ": pagerduty server error (status " +++ itoa n +++ ")") f
    else if in_range 400 500 n
    then permanent_error (operation +++ ": client error (status " +++ itoa n +++ ")") f
    else after_status operation f

unfoldable pub categorize_pager_duty_error : Failure → String → Error
categorize_pager_duty_error f operation =
    if f.is_network
    then transient_error (operation +++ ": network error") f
    else by_status operation f f.api_status

-- What a failure is worth trying again for.
abbrev pub IsTemporary : Failure → Option ℕ → Type 0
IsTemporary f none = f.is_context ≡ true
IsTemporary f (some n) =
    (n ≡ 429) ⊎ (500 ≤ n) × (n < 600) ⊎ (f.is_context ≡ true) × ((n < 400) ⊎ (600 ≤ n))

-- A failure becomes an error that the notifier tries again for exactly when it is one of the network,
-- or the API answers 429 or 500 to 599, or the context has ended and the API has not answered 400 to
-- 499.
pub categorize_pager_duty_error-transient :
    (f : Failure) (operation : String)
    → (is_transient_error (categorize_pager_duty_error f operation) ≡ true)
      ↔ (f.is_network ≡ true) ⊎ IsTemporary f f.api_status
unfolding categorize_pager_duty_error is_transient_error
categorize_pager_duty_error-transient f operation = ground arith

-- The answer of the endpoint to a request: nothing sent, no answer, or a status with a body that is
-- read or not.
pub data HttpReply : Type 0 where
  no_request : Failure → HttpReply
  no_reply : Failure → HttpReply
  unread_body : Failure → HttpReply
  replied : ℕ → String → HttpReply

-- fmt.Errorf("message: %w", err), which errors.As looks through
abbrev pub wrap_failure : String → Failure → Failure
wrap_failure m f = record f { message = m +++ ": " +++ f.message }

abbrev pub plain_failure : String → Failure
plain_failure m = record { is_network = false; api_status = none; is_context = false; message = m }

pub data Outcome : Type 0 where
  accepted : String → Outcome
  refused : Failure → Outcome

abbrev unmarshaled : String → Outcome → Outcome
unmarshaled body (accepted dedup_key) = accepted dedup_key
unmarshaled body (refused f) =
    refused (record f { message = "unmarshaling response: " +++ f.message +++ ", body: " +++ body })

abbrev pub http_outcome : (String → Outcome) → HttpReply → Outcome
http_outcome unmarshal (no_request f) = refused (wrap_failure "creating request" f)
http_outcome unmarshal (no_reply f) = refused (wrap_failure "sending request" f)
http_outcome unmarshal (unread_body f) = refused (wrap_failure "reading response" f)
http_outcome unmarshal (replied status body) =
    if ltb status 200 || not (ltb status 300)
    then refused
        (plain_failure ("HTTP response with status code: " +++ itoa status +++ ", body: " +++ body))
    else unmarshaled body (unmarshal body)

-- Through the configured endpoint no status is ever tried again: an answer outside of 200 to 299, 429
-- and 503 among them, becomes a permanent error.
pub http_outcome-permanent :
    (unmarshal : String → Outcome) (status : ℕ) (body operation : String)
    → (status < 200) ⊎ (300 ≤ status)
    → (f : Failure) × (http_outcome unmarshal (replied status body) ≡ refused f)
      × (is_transient_error (categorize_pager_duty_error f operation) ≡ false)
unfolding categorize_pager_duty_error is_transient_error
http_outcome-permanent unmarshal status body operation s = (
  plain_failure ("HTTP response with status code: " +++ itoa status +++ ", body: " +++ body),
  ground (arith, s),
  refl,
)
