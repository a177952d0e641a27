-- ===== src/Http/Auth/Freshness.antt =====
-- Which timestamps verifySlackSignature of
-- internal/adapter/handler/middleware/slack_auth.go takes as recent.
use Prim.Native.Char.{code}
use alert_bridge.Base.{
  String, Option, none, some, zero, Bool, true, Bool-cases, inl, inr, eqb, ltb, if◌then◌else◌, ℕ,
  suc, ◌+◌, ◌^◌, ◌≤◌, ◌<◌, ◌≡◌, ◌↔◌, ◌⊎◌, false, arith,
}
use alert_bridge.Base.Int.{ℤ, pos, negsuc, to_int64}
use alert_bridge.Base.Text.{parse_int, signed, negated}
use alert_bridge.Http.Auth.{sub_int64, abs, is_too_old}

-- An int64.
abbrev pub FitsInt64 : ℤ → Type 0
FitsInt64 (pos n) = n < 2 ^ 63
FitsInt64 (negsuc n) = n < 2 ^ 63

-- At most 300 seconds away, to either side; or 2^63 seconds before.
abbrev pub IsNear : ℕ → ℤ → Type 0
IsNear now (pos ts) = (now ≤ ts + 300) × (ts ≤ now + 300)
IsNear now (negsuc n) = (now + suc n ≤ 300) ⊎ (now + suc n ≡ 2 ^ 63)

-- For a clock of at most 62 bits and any int64 as the timestamp, the test accepts exactly what is at
-- most 300 seconds away from the clock, to either side, and the one timestamp that is 2^63 seconds
-- before the clock, whose distance wraps around.
pub is_too_old_iff :
    (now : ℕ) (ts : ℤ) → now < 2 ^ 62 → FitsInt64 ts → (is_too_old now ts ≡ false) ↔ IsNear now ts
unfolding is_too_old sub_int64 abs to_int64
is_too_old_iff now (pos ts) a b = ground arith
is_too_old_iff now (negsuc n) a b = ground arith

abbrev pub Fits : Option ℤ → Type 0
Fits none = Unit
Fits (some v) = FitsInt64 v

negated-Fits : (n : ℕ) → ltb (2 ^ 63) n ≡ false → Fits (some (negated n))
negated-Fits zero e = ground arith
negated-Fits (suc n) e = ground (arith, e)

range-Fits :
    (bad negative : Bool) (n : ℕ)
    → Fits (
        if bad
        then none
        else if negative
        then (if ltb (2 ^ 63) n then none else some (negated n))
        else if ltb n (2 ^ 63)
        then some (pos n)
        else none)
range-Fits true negative n = tt
range-Fits false true n = elim (Bool-cases (ltb (2 ^ 63) n)) [
  | inl e ↦ rw e tt
  | inr e ↦ rw e (negated-Fits n e)
]
range-Fits false false n = elim (Bool-cases (ltb n (2 ^ 63))) [
  | inl e ↦ rw e (ground (arith, e))
  | inr e ↦ rw e tt
]

signed-Fits : (negative : Bool) (s : String) → Fits (signed negative s)
signed-Fits negative Prim.Native.String.[] = tt
signed-Fits negative (Prim.Native.String.◌∷◌ c s) = range-Fits _ negative _

-- ParseInt gives an int64.
pub parse_int-Fits : (s : String) → Fits (parse_int s)
unfolding parse_int
parse_int-Fits Prim.Native.String.[] = tt
parse_int-Fits (Prim.Native.String.◌∷◌ c s) = elim (Bool-cases (eqb (code c) 45)) [
  | inl e ↦ rw e (signed-Fits true s)
  | inr e ↦ elim (Bool-cases (eqb (code c) 43)) [
    | inl f ↦ rw (e, f) (signed-Fits false s)
    | inr f ↦ rw (e, f) (signed-Fits false (Prim.Native.String.◌∷◌ c s))
  ]
]
