-- ===== src/Http/Auth/Guards.antt =====
-- What the middleware of internal/adapter/handler/middleware lets through.
use Prim.Native.Char.{Char, code}
use mathlib.Core.Path.{subst}
use text.Mathlib.TextEquality.{Char-path}
use alert_bridge.Base.{
  eqb, ◌<◌, ◌^◌, ℕ, String, ◌≡◌, ◌≢◌, ◌↔◌, ◌⊎◌, inl, inr, refl, sym, ap, ◌∙◌, Bool, true, false,
  Option, none, some, List, [], ◌∷◌, ◌==◌, ==-refl, ==-false, ==_sound, eq_iff, if◌then◌else◌,
  Bool-cases, arith,
}
use alert_bridge.Base.Int.{ℤ}
use alert_bridge.Base.Text.{parse_int, cut, before?, followed_by, append-followed_by}
use alert_bridge.UseCase.Slack.Durations.{◌+++◌}
use alert_bridge.Http.Auth.Freshness.{IsNear, Fits, parse_int-Fits, is_too_old_iff}
use alert_bridge.Http.Request.{Request, Response, Handler, header, header_values, deny}
use alert_bridge.Http.Auth.{
  has_matching, dated, verify_slack_signature, verify_pager_duty_signature,
  verify_alertmanager_signature, slack_auth, pager_duty_auth, alertmanager_auth, slack_checked,
  signed_by, pager_duty_checked, alertmanager_checked,
}

abbrev IsFilled : String → Type 0
IsFilled Prim.Native.String.[] = ⊥
IsFilled (Prim.Native.String.◌∷◌ c s) = Unit

-- The two parts around the separator make up the text.
abbrev IsCut : Char → String → Option (String × String) → Type 0
IsCut c s none = Unit
IsCut c s (some (a, b)) = s ≡ followed_by a (Prim.Native.String.◌∷◌ c b)

before-IsCut :
    (c d : Char) (s : String) (o : Option (String × String))
    → IsCut c s o
    → IsCut c (Prim.Native.String.◌∷◌ d s) (before? d o)
before-IsCut c d s none h = tt
before-IsCut c d s (some (a, b)) h = ap (Prim.Native.String.◌∷◌ d) h

cut-IsCut : (c : Char) (s : String) → IsCut c s (cut c s)
unfolding cut
cut-IsCut c Prim.Native.String.[] = tt
cut-IsCut c (Prim.Native.String.◌∷◌ d s) = elim (Bool-cases (eqb (code d) (code c))) [
  | inl e ↦ rw (e) (ap (λ x. Prim.Native.String.◌∷◌ x s) (Char-path d c (ground (arith, e))))
  | inr e ↦ rw (e) (before-IsCut c d s (cut c s) (cut-IsCut c s))
]

matching_cut :
    (s e : String) (o : Option (String × String))
    → IsCut "=" s o
    → has_matching o e ≡ true
    → s ≡ followed_by "v1=" e
matching_cut s e none h t = absurd (ground (arith, t))
matching_cut s e (some (a, b)) h t =
    let v : a ≡ "v1" = ground (arith, t, eq_iff a "v1") in
    let w : b ≡ e = ground (arith, t, eq_iff b e) in h ∙ rw (v, w) refl

-- A v1 signature matches exactly when it is the expected one behind "v1=".
v1_iff : (s e : String) → (has_matching (cut "=" s) e ≡ true) ↔ (s ≡ followed_by "v1=" e)
unfolding cut
v1_iff s e = (
  matching_cut s e (cut "=" s) (cut-IsCut "=" s),
  λ q. subst (λ t. has_matching (cut "=" t) e ≡ true) (sym q) (==-refl e),
)

-- The request goes on to the handler and meets the condition, or it does not meet it, is answered by
-- 400 or 401, and changes nothing.
abbrev pub IsGuarded : {W : Type 0} → Type 0 → Response × W → Response × W → W → Type 0
IsGuarded P result next w =
    (P × (result ≡ next))
    ⊎ ((P → ⊥) × (result.1 ≡ w) × ((result.0.status ≡ 400) ⊎ (result.0.status ≡ 401)))

guard :
    {W : Type 0} (P : Type 0) (b : Bool) (next : Response × W) (message : String) (w : W)
    → ((b ≡ true) ↔ P)
    → IsGuarded P (if b then next else deny 401 message w) next w
guard P true next message w f = inl (f.0 refl, refl)
guard P false next message w f = inr (λ p. absurd (ground (arith, f.1 p)), refl, inr refl)

module _ (hmac_hex : String → String → String) where
  -- A number, at most 300 seconds away from the clock (or 2^63 seconds before it).
  abbrev IsRecent : ℕ → Option ℤ → Type 0
  IsRecent now none = ⊥
  IsRecent now (some ts) = IsNear now ts

  abbrev pub IsSlackSigned : ℕ → String → Request → Option String → Type 0
  IsSlackSigned now secret r none = ⊥
  IsSlackSigned now secret r (some body) =
      let ts = header "X-Slack-Request-Timestamp" r in
      (ts ≢ "")
      × IsRecent now (parse_int ts)
      × (header "X-Slack-Signature" r ≡ "v0=" +++ hmac_hex secret ("v0:" +++ ts +++ ":" +++ body))

  dated_iff :
      (now : ℕ) (o : Option ℤ) (matches : Bool)
      → now < 2 ^ 62
      → Fits o
      → (dated hmac_hex now o matches ≡ true) ↔ (IsRecent now o × (matches ≡ true))
  dated_iff now none matches b f = ground arith
  dated_iff now (some ts) matches b f = ground (arith, is_too_old_iff now ts b f)

  -- A signature is never empty.
  signature_set : (s : String) → "v0=" +++ s ≢ ""
  signature_set s e = subst IsFilled (sym (append-followed_by "v0=" s) ∙ e) tt

  verify_slack_signature_iff :
      (now : ℕ) (r : Request) (body secret : String)
      → now < 2 ^ 62
      → (verify_slack_signature hmac_hex now r body secret ≡ true)
        ↔ IsSlackSigned now secret r (some body)
  unfolding verify_slack_signature
  verify_slack_signature_iff now r body secret b =
      let ts = header "X-Slack-Request-Timestamp" r in
      let expected = "v0=" +++ hmac_hex secret ("v0:" +++ ts +++ ":" +++ body) in
      let matches = header "X-Slack-Signature" r == expected in
      let recent = dated_iff now (parse_int ts) matches b (parse_int-Fits ts) in
      ground (
        arith,
        recent,
        eq_iff ts "",
        eq_iff (header "X-Slack-Signature" r) "",
        eq_iff (header "X-Slack-Signature" r) expected,
        signature_set (hmac_hex secret ("v0:" +++ ts +++ ":" +++ body)),
      )

  abbrev pub IsV1Signed : String → String → Option String → Type 0
  IsV1Signed secret signature none = ⊥
  IsV1Signed secret signature (some body) = signature ≡ followed_by "v1=" (hmac_hex secret body)

  abbrev pub SomeV1Signed : String → List String → Option String → Type 0
  SomeV1Signed secret [] body = ⊥
  SomeV1Signed secret (sig ∷ sigs) body = IsV1Signed secret sig body ⊎ SomeV1Signed secret sigs body

  verify_pager_duty_signature_iff :
      (body : String) (sigs : List String) (secret : String)
      → (verify_pager_duty_signature hmac_hex body sigs secret ≡ true)
        ↔ SomeV1Signed secret sigs (some body)
  unfolding verify_pager_duty_signature
  verify_pager_duty_signature_iff body [] secret = ground arith
  verify_pager_duty_signature_iff body (sig ∷ sigs) secret =
      ground
        (arith, v1_iff sig (hmac_hex secret body), verify_pager_duty_signature_iff body sigs secret)

  no_body_signed : (secret : String) (sigs : List String) → SomeV1Signed secret sigs none → ⊥
  no_body_signed secret [] h = h
  no_body_signed secret (sig ∷ sigs) (inl h) = h
  no_body_signed secret (sig ∷ sigs) (inr h) = no_body_signed secret sigs h

  module _ {W : Type 0} (next : Handler W) (r : Request) (w : W) where
    -- With a signing secret, a request that is not a GET reaches the Slack handlers exactly when it has a
    -- body, a timestamp that is recent (at most 300 seconds away), and the signature of the timestamp and the body under the
    -- secret; any other is answered by 400 or 401 and changes nothing.
    pub slack_auth-IsGuarded :
        (now : ℕ) (secret : String)
        → now < 2 ^ 62
        → r.method ≢ "GET"
        → secret ≢ ""
        → IsGuarded
            (IsSlackSigned now secret r r.body)
            (slack_auth hmac_hex now secret next r w)
            (next r w)
            w
    unfolding slack_auth
    slack_auth-IsGuarded now secret b m s =
        rw (==-false r.method "GET" m, ==-false secret "" s) (checked r.body)
      where
        checked :
            (o : Option String)
            → IsGuarded
                (IsSlackSigned now secret r o)
                (slack_checked hmac_hex now secret next o r w)
                (next r w)
                w
        checked none = inr (λ p. p, refl, inl refl)
        checked (some body) = guard _ _ _ _ w (verify_slack_signature_iff now r body secret b)

    -- With a webhook secret, a request reaches the PagerDuty handler exactly when it has a body and one of
    -- its signatures is "v1=" and the signature of the body under the secret; any other is answered
    -- by 400 or 401 and changes nothing.
    pub pager_duty_auth-IsGuarded :
        (secret_getter : W → String)
        → secret_getter w ≢ ""
        → IsGuarded
            (SomeV1Signed (secret_getter w) (header_values "X-PagerDuty-Signature" r) r.body)
            (pager_duty_auth hmac_hex secret_getter next r w)
            (next r w)
            w
    unfolding pager_duty_auth
    pager_duty_auth-IsGuarded secret_getter s =
        rw (==-false (secret_getter w) "" s) (checked r.body)
      where
        signed :
            (sigs : List String) (body : String)
            → IsGuarded
                (SomeV1Signed (secret_getter w) sigs (some body))
                (signed_by hmac_hex (secret_getter w) next sigs body r w)
                (next r w)
                w
        signed [] body = inr (λ p. p, refl, inr refl)
        signed (sig ∷ sigs) body =
            guard _ _ _ _ w (verify_pager_duty_signature_iff body (sig ∷ sigs) (secret_getter w))

        checked :
            (o : Option String)
            → IsGuarded
                (SomeV1Signed (secret_getter w) (header_values "X-PagerDuty-Signature" r) o)
                (pager_duty_checked hmac_hex (secret_getter w) next o r w)
                (next r w)
                w
        checked none = inr (no_body_signed (secret_getter w) _, refl, inl refl)
        checked (some body) = signed (header_values "X-PagerDuty-Signature" r) body

    -- With a webhook secret, a request reaches the Alertmanager handler exactly when it has a body and its
    -- signature is "v1=" and the signature of the body under the secret; any other is answered by
    -- 400 or 401 and changes nothing.
    pub alertmanager_auth-IsGuarded :
        (secret : String)
        → secret ≢ ""
        → IsGuarded
            (IsV1Signed secret (header "X-Alertmanager-Signature" r) r.body)
            (alertmanager_auth hmac_hex secret next r w)
            (next r w)
            w
    unfolding alertmanager_auth verify_alertmanager_signature
    alertmanager_auth-IsGuarded secret s =
        elim (Bool-cases (header "X-Alertmanager-Signature" r == "")) [
          | inl e ↦
              rw (==-false secret "" s, e)
                (inr (
                  unsigned (==_sound (header "X-Alertmanager-Signature" r) "" e) r.body,
                  refl,
                  inr refl,
                ))
          | inr e ↦ rw (==-false secret "" s, e) (checked r.body)
        ]
      where
        unsigned :
            header "X-Alertmanager-Signature" r ≡ ""
            → (o : Option String) → IsV1Signed secret (header "X-Alertmanager-Signature" r) o
            → ⊥
        unsigned e none p = p
        unsigned e (some body) p = subst IsFilled (sym p ∙ e) tt

        checked :
            (o : Option String)
            → IsGuarded
                (IsV1Signed secret (header "X-Alertmanager-Signature" r) o)
                (alertmanager_checked hmac_hex secret next o r w)
                (next r w)
                w
        checked none = inr (λ p. p, refl, inl refl)
        checked (some body) = guard _ _ _ _ w (v1_iff _ _)
