-- ===== src/Sqlite/Columns.antt =====
-- internal/infrastructure/persistence/sqlite/helpers.go. A time is a number of nanoseconds; its text
-- in RFC 3339 shows whole seconds in UTC, and is kept as their number: such texts are ordered as
-- their times are. `none` is NULL, or the nil pointer.
use Prim.Native.Nat.{◌/◌}
use alert_bridge.Base.{ℕ, ◌*◌, zero, suc, String, Option, none, some, [], ◌==◌, if◌then◌else◌}
use alert_bridge.Base.Assoc.{Map}
use alert_bridge.Base.Heap.{Heap, read}
use alert_bridge.Base.Int.{ℤ, pos, negsuc}
use alert_bridge.Sql.Json.{JsonCodec}

abbrev pub second : ℕ
second = 1000000000

unfoldable pub null_string : String → Option String
null_string s = if s == "" then none else some s

unfoldable pub string_from_null : Option String → String
string_from_null none = ""
string_from_null (some s) = s

unfoldable pub time_to_string : ℕ → ℕ
time_to_string t = t / second

unfoldable pub parse_time : ℕ → ℕ
parse_time s = s * second

unfoldable pub null_time : Option ℕ → Option ℕ
unfolding time_to_string
null_time none = none
null_time (some t) = some (time_to_string t)

unfoldable pub scan_null_time : Option ℕ → Option ℕ
unfolding parse_time
scan_null_time none = none
scan_null_time (some s) = some (parse_time s)

abbrev negated : ℕ → ℤ
negated zero = pos 0
negated (suc n) = negsuc n

-- int64(d.Seconds()): towards zero
abbrev whole_seconds : ℤ → ℤ
whole_seconds (pos n) = pos (n / second)
whole_seconds (negsuc n) = negated (suc n / second)

unfoldable pub duration_to_seconds : Option ℤ → Option ℤ
duration_to_seconds none = none
duration_to_seconds (some d) = some (whole_seconds d)

abbrev scaled : ℤ → ℤ
scaled (pos n) = pos (n * second)
scaled (negsuc n) = negated (suc n * second)

unfoldable pub seconds_to_duration : Option ℤ → Option ℤ
seconds_to_duration none = none
seconds_to_duration (some n) = some (scaled n)

module _ (c : JsonCodec) where
  open c use {Text, empty_object, encode, decode}

  -- A nil map is written as "{}".
  unfoldable pub marshal_json : Heap → Option ℕ → Text
  unfolding read
  marshal_json h none = empty_object
  marshal_json h (some p) = encode (h.cells p)

  -- The scanning code drops the error, and has an empty map then.
  unfoldable pub unmarshal_json : Text → Map String
  unmarshal_json text = elim (decode text) [ some m ↦ m | none ↦ [] ]
