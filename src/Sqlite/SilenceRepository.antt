-- ===== src/Sqlite/SilenceRepository.antt =====
-- internal/infrastructure/persistence/sqlite/silence_repository.go. `now` is a reading of the clock.
-- A nullable column is `none` for NULL, which an empty text is stored as.
pub mod Matching
use alert_bridge.Base.{
  ℕ, String, Bool, true, false, ◌&&◌, Option, none, some, List, [], ◌∷◌, ◌++◌, ◌-◌, ◌==◌, leb, ltb,
  if◌then◌else◌, filter, map, length,
}
use alert_bridge.Errors.{Result, ok, err, other, wrapped, sentinel, silence_not_found}
use alert_bridge.Entity.Alert.{Alert}
use alert_bridge.Entity.AckEvent.{AckSource}
use alert_bridge.Entity.SilenceMark.{SilenceMark, matches_alert}
use alert_bridge.Sql.Json.{JsonCodec}
use alert_bridge.Sql.Tables.{row_of, delete_rows, update_rows, map_option}
use alert_bridge.Sqlite.Columns.{
  null_string, string_from_null, time_to_string, parse_time, unmarshal_json,
}

pub record SilenceRow (Text : Type 0) : Type 0 where
  pub id : String
  pub alert_id : Option String
  pub instance_name : Option String
  pub fingerprint : Option String
  pub labels : Text
  pub start_at : ℕ
  pub end_at : ℕ
  pub created_by : String
  pub created_by_email : String
  pub reason : String
  pub source : AckSource
  pub created_at : ℕ

abbrev pub silence_row_id : {T : Type 0} → SilenceRow T → String
silence_row_id r = r.id

-- start_at <= ? AND end_at > ?
unfoldable pub is_current : {T : Type 0} → ℕ → SilenceRow T → Bool
unfolding time_to_string
is_current now r = leb r.start_at (time_to_string now) && ltb (time_to_string now) r.end_at

-- A nullable column against a text: NULL equals nothing.
abbrev column_is : Option String → String → Bool
column_is none s = false
column_is (some v) s = v == s

module _ (c : JsonCodec) where
  open c use {Text, encode}

  unfoldable pub to_silence_row : SilenceMark → SilenceRow Text
  unfolding null_string time_to_string
  to_silence_row s = record {
    id = s.id;
    alert_id = null_string s.alert_id;
    instance_name = null_string s.instance_name;
    fingerprint = null_string s.fingerprint;
    labels = encode s.labels;
    start_at = time_to_string s.start_at;
    end_at = time_to_string s.end_at;
    created_by = s.created_by;
    created_by_email = s.created_by_email;
    reason = s.reason;
    source = s.source;
    created_at = time_to_string s.created_at;
  }

  unfoldable pub scan_silence : SilenceRow Text → SilenceMark
  unfolding string_from_null parse_time unmarshal_json
  scan_silence r = record {
    id = r.id;
    alert_id = string_from_null r.alert_id;
    instance_name = string_from_null r.instance_name;
    fingerprint = string_from_null r.fingerprint;
    labels = unmarshal_json c r.labels;
    start_at = parse_time r.start_at;
    end_at = parse_time r.end_at;
    created_by = r.created_by;
    created_by_email = r.created_by_email;
    reason = r.reason;
    source = r.source;
    created_at = parse_time r.created_at;
  }

  unfoldable pub scan_silences : List (SilenceRow Text) → List SilenceMark
  unfolding scan_silence
  scan_silences rows = map scan_silence rows

  -- A second silence of one id is refused by the primary key, and has no error of its own.
  unfoldable pub save_silence :
      SilenceMark → List (SilenceRow Text) → Result (List (SilenceRow Text))
  unfolding to_silence_row row_of
  save_silence s t = elim (row_of silence_row_id s.id t) [
    | some _ ↦ err (wrapped "insert silence" (other "UNIQUE constraint failed"))
    | none ↦ ok (t ++ to_silence_row s ∷ [])
  ]

  unfoldable pub find_silence_by_id : String → List (SilenceRow Text) → Option SilenceMark
  unfolding row_of scan_silence
  find_silence_by_id id t = map_option scan_silence (row_of silence_row_id id t)

  unfoldable pub find_active_silences : ℕ → List (SilenceRow Text) → List SilenceMark
  unfolding is_current scan_silences
  find_active_silences now t = scan_silences (filter (is_current now) t)

  unfoldable pub find_silences_by_alert_id : ℕ → String → List (SilenceRow Text) → List SilenceMark
  unfolding is_current scan_silences
  find_silences_by_alert_id now alert_id t =
      scan_silences (filter (λ r. column_is r.alert_id alert_id && is_current now r) t)

  unfoldable pub find_silences_by_instance : ℕ → String → List (SilenceRow Text) → List SilenceMark
  unfolding is_current scan_silences
  find_silences_by_instance now name t =
      scan_silences (filter (λ r. column_is r.instance_name name && is_current now r) t)

  unfoldable pub find_silences_by_fingerprint :
      ℕ → String → List (SilenceRow Text) → List SilenceMark
  unfolding is_current scan_silences
  find_silences_by_fingerprint now fingerprint t =
      scan_silences (filter (λ r. column_is r.fingerprint fingerprint && is_current now r) t)

  -- The query reads the clock at `now`, and MatchesAlert reads it again, at `later`.
  unfoldable pub find_matching_alert : ℕ → ℕ → Alert → List (SilenceRow Text) → List SilenceMark
  unfolding is_current scan_silences
  find_matching_alert now later a t =
      filter (matches_alert later a) (scan_silences (filter (is_current now) t))

  unfoldable pub set_silence_columns : SilenceMark → SilenceRow Text → SilenceRow Text
  unfolding to_silence_row
  set_silence_columns s r = record (to_silence_row s) { id = r.id; created_at = r.created_at }

  unfoldable pub update_silence :
      SilenceMark → List (SilenceRow Text) → Result (List (SilenceRow Text))
  unfolding set_silence_columns row_of update_rows
  update_silence s t = elim (row_of silence_row_id s.id t) [
    | none ↦ err (sentinel silence_not_found)
    | some _ ↦ ok (update_rows silence_row_id s.id (set_silence_columns s) t)
  ]

  unfoldable pub delete_silence : String → List (SilenceRow Text) → Result (List (SilenceRow Text))
  unfolding row_of delete_rows
  delete_silence id t = elim (row_of silence_row_id id t) [
    | none ↦ err (sentinel silence_not_found)
    | some _ ↦ ok (delete_rows silence_row_id id t)
  ]

  -- The rows that stay, and how many went.
  unfoldable pub delete_expired : ℕ → List (SilenceRow Text) → List (SilenceRow Text) × ℕ
  unfolding time_to_string
  delete_expired now t =
      let stay = filter (λ r. leb (time_to_string now) r.end_at) t in (stay, length t - length stay)
