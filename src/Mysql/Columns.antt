-- ===== src/Mysql/Columns.antt =====
-- internal/infrastructure/persistence/mysql/helpers.go. `none` is NULL, or the nil pointer. isRetryable,
-- which nothing calls, is left out.
use alert_bridge.Base.{
  ℕ, zero, String, Bool, true, false, ◌||◌, Option, none, some, eqb, is_set, if◌then◌else◌,
}
use alert_bridge.Base.Assoc.{Map}
use alert_bridge.Base.Heap.{Heap, read}
use alert_bridge.Base.Int.{ℤ, pos}
use alert_bridge.Errors.{
  Error, Result, ok, err, sentinel, wrapped, other, not_found, already_exists, concurrent_update,
}
use alert_bridge.Sql.Json.{JsonCodec}
use alert_bridge.Sqlite.Columns.{duration_to_seconds}

unfoldable pub null_text : String → Option String
null_text s = if is_set s then some s else none

unfoldable pub string_value : Option String → String
string_value none = ""
string_value (some s) = s

abbrev is_zero : ℤ → Bool
is_zero (pos zero) = true
is_zero _ = false

-- Unlike the helper of SQLite, a zero duration is NULL.
unfoldable pub seconds_or_null : Option ℤ → Option ℤ
unfolding duration_to_seconds
seconds_or_null none = none
seconds_or_null (some d) = if is_zero d then none else duration_to_seconds (some d)

-- What the driver may report.
pub data DriverError : Type 0 where
  no_rows : DriverError
  mysql_error : ℕ → String → DriverError
  other_error : String → DriverError

unfoldable pub map_error : DriverError → Error
map_error no_rows = sentinel not_found
map_error (mysql_error n message) =
    if eqb n 1062
    then sentinel already_exists
    else if eqb n 1452
    then sentinel not_found
    else if eqb n 1213 || eqb n 1205
    then sentinel concurrent_update
    else other message
map_error (other_error message) = other message

unfoldable pub is_duplicate_error : DriverError → Bool
is_duplicate_error (mysql_error n message) = eqb n 1062
is_duplicate_error _ = false

unfoldable pub is_foreign_key_error : DriverError → Bool
is_foreign_key_error (mysql_error n message) = eqb n 1452 || eqb n 1451
is_foreign_key_error _ = false

module _ (c : JsonCodec) where
  open c use {Text, null_object, encode, decode}

  -- A nil map in an interface is not the nil interface, so it is written as "null".
  unfoldable pub marshal_map : Heap → Option ℕ → Text
  unfolding read
  marshal_map h none = null_object
  marshal_map h (some p) = encode (h.cells p)

  -- Here an error is returned.
  unfoldable pub unmarshal_map : Text → Result (Map String)
  unmarshal_map text = elim (decode text) [
    | some m ↦ ok m
    | none ↦ err (wrapped "unmarshaling JSON" (other "invalid JSON"))
  ]
