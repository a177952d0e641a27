-- ===== src/Mysql/SilenceRepository/Writes.antt =====
-- Save and Update of internal/infrastructure/persistence/mysql/silence_repository.go. `keep` is what a
-- TIMESTAMP column keeps of a time.
use alert_bridge.Base.{ℕ, ◌+◌, String, Option, none, some, List, [], ◌∷◌, ◌++◌, if◌then◌else◌}
use alert_bridge.Errors.{
  Error, other, wrapped, Result, ok, err, sentinel, already_exists, not_found, concurrent_update,
}
use alert_bridge.Entity.SilenceMark.{SilenceMark}
use alert_bridge.Sql.Json.{JsonCodec}
use alert_bridge.Sql.Tables.{row_of}
use alert_bridge.Sql.Versions.{update_where, any_target}
use alert_bridge.Mysql.Columns.{null_text}
use alert_bridge.Mysql.SilenceRepository.{SilenceRow, silence_id, silence_version}

-- ER_BAD_NULL_ERROR, by its number.
abbrev pub null_refused : Error
null_refused = other "Error 1048"

module _ (c : JsonCodec) (keep : ℕ → ℕ) where
  open c use {Text, encode}

  -- The row of the INSERT, in version 1, by its two columns that are NOT NULL.
  abbrev pub row_by : SilenceMark → String → String → SilenceRow Text
  row_by s by email = record {
    id = s.id;
    alert_id = null_text s.alert_id;
    instance_name = null_text s.instance_name;
    fingerprint = null_text s.fingerprint;
    labels = encode s.labels;
    start_at = keep s.start_at;
    end_at = keep s.end_at;
    created_by = by;
    created_by_email = email;
    reason = s.reason;
    source = s.source;
    version = 1;
    created_at = keep s.created_at;
  }

  abbrev both :
      Option String → Option String → (String → String → SilenceRow Text) → Option (SilenceRow Text)
  both (some by) (some email) f = some (f by email)
  both _ _ f = none

  -- `none` where a column that is NOT NULL is given NULL.
  unfoldable pub to_silence_row : SilenceMark → Option (SilenceRow Text)
  unfolding null_text
  to_silence_row s = both (null_text s.created_by) (null_text s.created_by_email) (row_by s)

  unfoldable pub save_silence :
      SilenceMark → List (SilenceRow Text) → Result (List (SilenceRow Text))
  unfolding to_silence_row row_of
  save_silence s t = elim (to_silence_row s) [
    | none ↦ err (wrapped "inserting silence" null_refused)
    | some q ↦ elim (row_of silence_id s.id t) [
      | some _ ↦ err (sentinel already_exists)
      | none ↦ ok (t ++ q ∷ [])
    ]
  ]

  -- SET ..., version = version + 1; the id and the time of creation stay
  unfoldable pub set_silence_columns : SilenceRow Text → SilenceRow Text → SilenceRow Text
  set_silence_columns q r = record q {
    id = r.id;
    version = r.version + 1;
    created_at = r.created_at;
  }

  -- The last statement tells a missing silence from one in another version.
  unfoldable pub explain_silence_miss :
      String → List (SilenceRow Text) → Result (Unit {0}) × List (SilenceRow Text)
  unfolding row_of
  explain_silence_miss id t = elim (row_of silence_id id t) [
    | none ↦ (err (sentinel not_found), t)
    | some _ ↦ (err (sentinel concurrent_update), t)
  ]

  -- The row of the statement is set, unless a NULL is refused.
  abbrev set_row :
      SilenceMark
      → ℕ
      → Option (SilenceRow Text)
      → List (SilenceRow Text)
      → Result (Unit {0}) × List (SilenceRow Text)
  set_row s version none t = (err (wrapped "updating silence" null_refused), t)
  set_row s version (some q) t =
      (ok tt, update_where silence_id silence_version (set_silence_columns q) s.id version t)

  abbrev update_silence_version :
      (later : List (SilenceRow Text) → List (SilenceRow Text))
      → SilenceMark
      → ℕ
      → List (SilenceRow Text)
      → Result (Unit {0}) × List (SilenceRow Text)
  update_silence_version later s version t =
      if any_target silence_id silence_version s.id version t
      then set_row s version (to_silence_row s) t
      else explain_silence_miss s.id (later t)

  unfoldable pub update_silence :
      (between later : List (SilenceRow Text) → List (SilenceRow Text))
      → SilenceMark
      → List (SilenceRow Text)
      → Result (Unit {0}) × List (SilenceRow Text)
  unfolding update_where any_target set_silence_columns explain_silence_miss row_of to_silence_row
  update_silence between later s t = elim (row_of silence_id s.id t) [
    | none ↦ (err (sentinel not_found), t)
    | some r ↦ update_silence_version later s r.version (between t)
  ]
