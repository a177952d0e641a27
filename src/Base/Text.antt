-- ===== src/Base/Text.antt =====
-- What the code uses of Go's strings and strconv, on texts as lists of characters. Letters are lowered
-- as in ASCII: the other letters, which no command of the program has, stay as they are.
use Prim.Native.Char.{Char, code}
use Prim.Native.Nat.{ℕ, zero, suc, ◌+◌, ◌-◌, ◌*◌, ◌/◌, ◌%◌, ◌^◌}
use Prim.Native.String.{String, [], ◌∷◌, ◌++◌, char_at}
use text.Mathlib.TextLemmas.{nil-append, cons-append}
use mathlib.Core.Bool.{Bool, true, false, not, ◌&&◌, ◌||◌}
use mathlib.Core.List.{List}
use mathlib.Core.Option.{Option, none, some}
use mathlib.Core.Path.{◌≡◌, refl, ap, ◌∙◌}
use alert_bridge.Base.Tests.{if◌then◌else◌, ltb, eqb}
use alert_bridge.Base.Int.{ℤ, pos, negsuc}

abbrev between : ℕ → ℕ → Char → Bool
between low high c = ltb low (code c + 1) && ltb (code c) (high + 1)

abbrev pub is_digit : Char → Bool
is_digit c = between 48 57 c

-- unicode.IsSpace
abbrev pub is_space : Char → Bool
is_space c =
    between 9 13 c
    || eqb (code c) 32
    || eqb (code c) 133
    || eqb (code c) 160
    || eqb (code c) 5760
    || between 8192 8202 c
    || between 8232 8233 c
    || eqb (code c) 8239
    || eqb (code c) 8287
    || eqb (code c) 12288

abbrev pub lower_char : Char → Char
lower_char c = if between 65 90 c then char_at "abcdefghijklmnopqrstuvwxyz" (code c - 65) else c

-- strings.ToLower
unfoldable pub to_lower : String → String
to_lower [] = []
to_lower (c ∷ s) = lower_char c ∷ to_lower s

unfoldable pub trim_left : String → String
trim_left [] = []
trim_left (c ∷ s) = let rest = trim_left s in if is_space c then rest else c ∷ s

abbrev close : Char → String → String
close c [] = if is_space c then [] else c ∷ []
close c (d ∷ s) = c ∷ d ∷ s

unfoldable pub trim_right : String → String
trim_right [] = []
trim_right (c ∷ s) = close c (trim_right s)

-- strings.TrimSpace
unfoldable pub trim_space : String → String
unfolding trim_left trim_right
trim_space s = trim_right (trim_left s)

-- A character at the end.
unfoldable pub snoc : String → Char → String
snoc [] d = d ∷ []
snoc (c ∷ s) d = c ∷ snoc s d

abbrev flush : String → List String → List String
flush [] words = words
flush (c ∷ s) words = List.◌∷◌ (c ∷ s) words

unfoldable fields_from : String → String → List String
unfolding snoc
fields_from word [] = flush word List.[]
fields_from word (c ∷ s) =
    let next = flush word (fields_from [] s) in
    let longer = fields_from (snoc word c) s in if is_space c then next else longer

-- strings.Fields
unfoldable pub fields : String → List String
unfolding fields_from
fields s = fields_from [] s

abbrev before : Char → String × String → String × String
before c (s, t) = (c ∷ s, t)

-- The digits in front, and the rest.
unfoldable pub split_digits : String → String × String
split_digits [] = ([], [])
split_digits (c ∷ s) =
    let split = before c (split_digits s) in if is_digit c then split else ([], c ∷ s)

unfoldable pub all_digits : String → Bool
all_digits [] = true
all_digits (c ∷ s) = is_digit c && all_digits s

unfoldable pub value_from : ℕ → String → ℕ
value_from n [] = n
value_from n (c ∷ s) = value_from (n * 10 + (code c - 48)) s

-- strconv.Atoi on a text of digits; an error beyond the 63 bits of a positive int
unfoldable pub atoi : String → Option ℕ
unfolding value_from
atoi s = let n = value_from 0 s in if ltb n (2 ^ 63) then some n else none

abbrev pub negated : ℕ → ℤ
negated zero = pos zero
negated (suc n) = negsuc n

-- A sign and a text of digits, at least one; positive numbers end at 2^63 - 1, negative ones at -2^63.
abbrev pub signed : Bool → String → Option ℤ
signed negative [] = none
signed negative (c ∷ s) =
    let n = value_from 0 (c ∷ s) in
    if not (all_digits (c ∷ s))
    then none
    else if negative
    then (if ltb (2 ^ 63) n then none else some (negated n))
    else if ltb n (2 ^ 63)
    then some (pos n)
    else none

-- strconv.Atoi on any text
unfoldable pub parse_int : String → Option ℤ
unfolding all_digits value_from
parse_int [] = none
parse_int (c ∷ s) =
    if eqb (code c) 45
    then signed true s
    else if eqb (code c) 43
    then signed false s
    else signed false (c ∷ s)

abbrev pub before? : Char → Option (String × String) → Option (String × String)
before? c none = none
before? c (some split) = some (before c split)

-- strings.SplitN(s, sep, 2), where sep is one character and occurs
unfoldable pub cut : Char → String → Option (String × String)
cut sep [] = none
cut sep (c ∷ s) =
    let rest = before? c (cut sep s) in if eqb (code c) (code sep) then some ([], s) else rest

-- The first text followed by the second, which opens at a literal.
abbrev pub followed_by : String → String → String
followed_by [] t = t
followed_by (c ∷ s) t = c ∷ followed_by s t

pub append-followed_by : (s t : String) → s ++ t ≡ followed_by s t
append-followed_by [] t = nil-append t
append-followed_by (c ∷ s) t = cons-append c s t ∙ ap (◌∷◌ c) (append-followed_by s t)

abbrev digit_text : ℕ → String
digit_text d = char_at "0123456789" d ∷ []

-- strconv.Itoa of a number of at most `places` digits
unfoldable itoa_upto : ℕ → ℕ → String
itoa_upto zero n = ""
itoa_upto (suc places) n =
    let front = itoa_upto places (n / 10) in
    if ltb n 10 then digit_text n else front ++ digit_text (n % 10)

-- Twenty digits are enough for 64 bits.
unfoldable pub itoa : ℕ → String
unfolding itoa_upto
itoa n = itoa_upto 20 n

tests :
    (to_lower "Crit 24H" ≡ "crit 24h")
    × (trim_space "  a b " ≡ "a b")
    × (fields " delete  s-1 " ≡ List.◌∷◌ "delete" (List.◌∷◌ "s-1" List.[]))
    × (split_digits "24h" ≡ ("24", "h"))
    × (atoi "007" ≡ some 7)
    × (atoi "9223372036854775808" ≡ none)
    × (itoa 4096 ≡ "4096")
    × (parse_int "-42" ≡ some (negsuc 41))
    × (parse_int "+7" ≡ some (pos 7))
    × (parse_int "4 " ≡ none)
    × (parse_int "-9223372036854775809" ≡ none)
unfolding parse_int to_lower trim_space fields split_digits atoi itoa
tests = (refl, refl, refl, refl, refl, refl, refl, refl, refl, refl, refl)
