-- ===== src/Adapter/SlackCommand/Periods.antt =====
-- What the period in a command's text stands for, and when its nanoseconds fit.
use Prim.Native.Char.{Char, code}
use Prim.Native.String.{[], ◌∷◌}
use alert_bridge.Base.{
  ℕ, ◌*◌, ◌^◌, ◌≤◌, ◌<◌, String, ◌≡◌, ◌≢◌, ◌↔◌, ◌⊎◌, refl, ap, ◌∙◌, inl, inr, true, false,
  Bool-cases, none, some, ◌==◌, ==-false, is_set, if◌then◌else◌, ltb, arith,
}
use alert_bridge.Base.Int.{pos, to_int64}
use alert_bridge.Base.Text.{
  is_digit, is_space, lower_char, to_lower, trim_space, trim_left, trim_right, snoc, split_digits,
  value_from, atoi,
}
use alert_bridge.Adapter.SlackCommand.{
  SlackCommandDto, unit_length, duration_of, is_unit, find_period, to_duration, read_period,
  parse_duration, period_filter,
}

-- Every character of the text is a digit.
abbrev pub AllDigits : String → Type 0
AllDigits [] = Unit
AllDigits (c ∷ s) = (is_digit c ≡ true) × AllDigits s

-- Digits and lower-case letters.
abbrev IsPlain : Char → Type 0
IsPlain c = (is_space c ≡ false) × (lower_char c ≡ c)

abbrev AllPlain : String → Type 0
AllPlain [] = Unit
AllPlain (c ∷ s) = IsPlain c × AllPlain s

digit-IsPlain : (c : Char) → is_digit c ≡ true → IsPlain c
digit-IsPlain c h = ground arith

unit-IsPlain : (c : Char) → is_unit c ≡ true → IsPlain c
unit-IsPlain c h = ground arith

snoc-AllPlain : (s : String) (u : Char) → AllDigits s → is_unit u ≡ true → AllPlain (snoc s u)
unfolding snoc
snoc-AllPlain [] u h k = (unit-IsPlain u k, tt)
snoc-AllPlain (c ∷ s) u h k = (digit-IsPlain c h.0, snoc-AllPlain s u h.1 k)

to_lower-plain : (s : String) → AllPlain s → to_lower s ≡ s
unfolding to_lower
to_lower-plain [] h = refl
to_lower-plain (c ∷ s) h = ap (λ d. d ∷ to_lower s) h.0.1 ∙ ap (λ t. c ∷ t) (to_lower-plain s h.1)

trim_left-plain : (s : String) → AllPlain s → trim_left s ≡ s
unfolding trim_left
trim_left-plain [] h = refl
trim_left-plain (c ∷ s) h = rw (h.0.0) refl

trim_right-plain : (s : String) → AllPlain s → trim_right s ≡ s
unfolding trim_right
trim_right-plain [] h = refl
trim_right-plain (c ∷ []) h = rw (h.0.0) refl
trim_right-plain (c ∷ d ∷ s) h = rw (trim_right-plain (d ∷ s) h.1) refl

unit_not_digit : (c : Char) → is_unit c ≡ true → is_digit c ≡ false
unit_not_digit c h = ground arith

split_digits-snoc :
    (s : String) (u : Char) → AllDigits s → is_unit u ≡ true → split_digits (snoc s u) ≡ (s, u ∷ [])
unfolding split_digits snoc
split_digits-snoc [] u h k = rw (unit_not_digit u k) refl
split_digits-snoc (c ∷ s) u h k = rw (h.0, split_digits-snoc s u h.1 k) refl

to_int64-exact : (n : ℕ) → (to_int64 n ≡ pos n) ↔ (n < 2 ^ 63)
unfolding to_int64
to_int64-exact n = (λ e. ground arith, λ h. ground arith)

unit_length-pos : (u : Char) → is_unit u ≡ true → 1 ≤ unit_length u
unfolding unit_length
unit_length-pos u k = ground arith

none_at_zero : (n l : ℕ) → ltb 0 n ≡ false → n * l ≡ 0
none_at_zero n l h = grind arith

beyond : (n l : ℕ) → ltb n (2 ^ 63) ≡ false → 1 ≤ l → 2 ^ 63 ≤ n * l
beyond n l h k = grind arith

duration-exact :
    (n : ℕ) (u : Char)
    → is_unit u ≡ true
    → (duration_of (if ltb n (2 ^ 63) then some n else none) u ≡ pos (n * unit_length u))
      ↔ (n * unit_length u < 2 ^ 63)
unfolding to_duration
duration-exact n u k = elim (Bool-cases (ltb n (2 ^ 63))) [
  | inl e ↦ rw e (elim (Bool-cases (ltb 0 n)) [
    | inl f ↦ rw f (to_int64-exact (n * unit_length u))
    | inr f ↦ (
      λ g. ground (arith, none_at_zero n (unit_length u)),
      λ g. ground (arith, none_at_zero n (unit_length u)),
    )
  ])
  | inr e ↦ rw e (
    λ g. ground (arith, beyond n (unit_length u), unit_length-pos u k),
    λ g. ground (arith, beyond n (unit_length u), unit_length-pos u k),
  )
]

-- A character in front of a text that is not the first of the other.
first : String → ℕ
first [] = 0
first (c ∷ s) = code c

first-differs : (s t : String) → first s ≢ first t → (s == t) ≡ false
first-differs s t h = ==-false s t (λ e. h (ap first e))

is_set-digits : (s : String) → AllDigits s → s ≢ "" → is_set s ≡ true
is_set-digits s h n = rw (==-false s "" n) refl

read_period-snoc :
    (s : String) (u : Char)
    → AllDigits s
    → s ≢ ""
    → is_unit u ≡ true
    → read_period (snoc s u) ≡ duration_of (atoi s) u
unfolding read_period find_period
read_period-snoc s u h n k = rw (split_digits-snoc s u h k, ==-false s "" n, k) refl

first_digit :
    (s : String) (u : Char)
    → AllDigits s
    → s ≢ ""
    → (48 ≤ first (snoc s u)) × (first (snoc s u) ≤ 57)
unfolding snoc first
first_digit [] u h n = absurd (n refl)
first_digit (c ∷ s) u h n = bounds h.0
  where
    bounds : is_digit c ≡ true → (48 ≤ code c) × (code c ≤ 57)
    bounds e = ground arith

-- No alias begins with a digit.
no_alias :
    (s : String) (u : Char) (t : String)
    → AllDigits s
    → s ≢ ""
    → (first t ≡ 0) ⊎ (58 ≤ first t)
    → (snoc s u == t) ≡ false
no_alias s u t h n far = first-differs (snoc s u) t (apart far)
  where
    apart : (first t ≡ 0) ⊎ (58 ≤ first t) → first (snoc s u) ≢ first t
    apart (inl e) q = omega (arith, first_digit s u h n)
    apart (inr e) q = omega (arith, first_digit s u h n)

period_filter-digits :
    (d : SlackCommandDto) (s : String) (u : Char)
    → d.text ≡ snoc s u
    → AllDigits s
    → s ≢ ""
    → is_unit u ≡ true
    → period_filter d ≡ read_period (snoc s u)
unfolding period_filter trim_space first
period_filter-digits d s u e h n k =
    let plain = snoc-AllPlain s u h k in
    rw
      (
        e,
        to_lower-plain (snoc s u) plain,
        trim_left-plain (snoc s u) plain,
        trim_right-plain (snoc s u) plain,
        no_alias s u "" h n (inl refl),
        no_alias s u "today" h n (inr (omega arith)),
        no_alias s u "week" h n (inr (omega arith)),
        no_alias s u "thisweek" h n (inr (omega arith)),
        no_alias s u "all" h n (inr (omega arith)),
      )
      refl

-- The text of a command is digits, at least one, with a unit behind them: m, h, d or w. Then the
-- period is as many units as the digits say exactly if those are fewer than 2^63 nanoseconds, and the
-- duration that the silence command reads from the same text is the same.
pub period_filter-exact_iff :
    (d : SlackCommandDto) (s : String) (u : Char)
    → d.text ≡ snoc s u
    → AllDigits s
    → s ≢ ""
    → is_unit u ≡ true
    → ((period_filter d ≡ pos (value_from 0 s * unit_length u))
        ↔ (value_from 0 s * unit_length u < 2 ^ 63))
      × (parse_duration d.text ≡ period_filter d)
unfolding parse_duration atoi
period_filter-exact_iff d s u e h n k = rw (period_filter-digits d s u e h n k) (
  rw (read_period-snoc s u h n k) (duration-exact (value_from 0 s) u k),
  ap (λ t. read_period (to_lower t)) e
      ∙ ap read_period (to_lower-plain (snoc s u) (snoc-AllPlain s u h k)),
)
