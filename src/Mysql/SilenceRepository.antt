-- ===== src/Mysql/SilenceRepository.antt =====
-- internal/infrastructure/persistence/mysql/silence_repository.go. As in the repository of the alerts,
-- writes go to the primary and reads to the replica, and other clients may write between two
-- statements of Update: `between` and `later`. NOW() is the clock of the database, `at`. created_by
-- and created_by_email are NOT NULL, and the database refuses a NULL there, as it does in its strict mode.
pub mod Writes
pub mod RoundTrip
pub mod FromSlack
use alert_bridge.Base.{
  ℕ, ◌+◌, ◌-◌, String, Bool, true, false, ◌&&◌, ◌||◌, Option, none, some, List, [], ◌∷◌, ◌++◌, ◌==◌,
  eqb, leb, ltb, if◌then◌else◌, filter, map, length,
}
use alert_bridge.Base.Assoc.{Map}
use alert_bridge.Errors.{
  Result, ok, err, wrapped, sentinel, already_exists, not_found, concurrent_update,
}
use alert_bridge.Entity.Alert.{Alert}
use alert_bridge.Entity.AckEvent.{AckSource}
use alert_bridge.Entity.SilenceMark.{SilenceMark, matches_alert}
use alert_bridge.Sql.Json.{JsonCodec}
use alert_bridge.Sql.Tables.{row_of, delete_rows}
use alert_bridge.Mysql.Columns.{null_text, string_value, unmarshal_map}

pub record SilenceRow (Text : Type 0) : Type 0 where
  pub id : String
  pub alert_id : Option String
  pub instance_name : Option String
  pub fingerprint : Option String
  pub labels : Text
  pub start_at : ℕ
  pub end_at : ℕ
  pub created_by : String
  pub created_by_email : String
  pub reason : String
  pub source : AckSource
  pub version : ℕ
  pub created_at : ℕ

abbrev pub silence_id : {T : Type 0} → SilenceRow T → String
silence_id r = r.id

abbrev pub silence_version : {T : Type 0} → SilenceRow T → ℕ
silence_version r = r.version

pub record SilenceTables (Text : Type 0) : Type 0 where
  pub primary : List (SilenceRow Text)
  pub replica : List (SilenceRow Text)

-- start_at <= NOW() AND end_at > NOW()
unfoldable pub is_current_at : {T : Type 0} → ℕ → SilenceRow T → Bool
is_current_at at r = leb r.start_at at && ltb at r.end_at

-- A nullable column against a text: NULL equals nothing.
abbrev pub column_is : Option String → String → Bool
column_is none s = false
column_is (some v) s = v == s

-- ORDER BY created_at DESC; rows of one time stay in their order, which the database leaves open
unfoldable pub insert_by_created_at :
    {T : Type 0} → SilenceRow T → List (SilenceRow T) → List (SilenceRow T)
insert_by_created_at r [] = r ∷ []
insert_by_created_at r (q ∷ qs) =
    if leb q.created_at r.created_at then r ∷ q ∷ qs else q ∷ insert_by_created_at r qs

unfoldable pub order_by_created_at : {T : Type 0} → List (SilenceRow T) → List (SilenceRow T)
unfolding insert_by_created_at
order_by_created_at [] = []
order_by_created_at (r ∷ rs) = insert_by_created_at r (order_by_created_at rs)

module _ (c : JsonCodec) where
  open c use {Text}

  abbrev with_labels : SilenceRow Text → Result (Map String) → Result SilenceMark
  with_labels r (err e) = err (wrapped "unmarshaling labels" e)
  with_labels r (ok labels) = ok (record {
    id = r.id;
    alert_id = string_value r.alert_id;
    instance_name = string_value r.instance_name;
    fingerprint = string_value r.fingerprint;
    labels = labels;
    start_at = r.start_at;
    end_at = r.end_at;
    created_by = r.created_by;
    created_by_email = r.created_by_email;
    reason = r.reason;
    source = r.source;
    created_at = r.created_at;
  })

  unfoldable pub scan_silence : SilenceRow Text → Result SilenceMark
  unfolding string_value unmarshal_map
  scan_silence r = with_labels r (unmarshal_map c r.labels)

  abbrev cons_silence : Result SilenceMark → Result (List SilenceMark) → Result (List SilenceMark)
  cons_silence (ok s) (ok rest) = ok (s ∷ rest)
  cons_silence (ok s) (err e) = err e
  cons_silence (err e) rest = err e

  -- The first row that cannot be read ends the scan.
  unfoldable pub scan_silences : List (SilenceRow Text) → Result (List SilenceMark)
  unfolding scan_silence
  scan_silences [] = ok []
  scan_silences (r ∷ rs) = cons_silence (scan_silence r) (scan_silences rs)

  abbrev found_silence : Result SilenceMark → Result (Option SilenceMark)
  found_silence (ok s) = ok (some s)
  found_silence (err e) = err e

  abbrev scan_found : Option (SilenceRow Text) → Result (Option SilenceMark)
  scan_found none = ok none
  scan_found (some r) = found_silence (scan_silence r)

  unfoldable pub find_silence_by_id : String → SilenceTables Text → Result (Option SilenceMark)
  unfolding row_of scan_silence
  find_silence_by_id id db = scan_found (row_of silence_id id db.replica)

  unfoldable pub find_current :
      (SilenceRow Text → Bool) → ℕ → SilenceTables Text → Result (List SilenceMark)
  unfolding is_current_at scan_silences order_by_created_at
  find_current p at db =
      scan_silences (order_by_created_at (filter (λ r. p r && is_current_at at r) db.replica))

  unfoldable pub find_active_silences : ℕ → SilenceTables Text → Result (List SilenceMark)
  unfolding find_current
  find_active_silences at db = find_current (λ r. true) at db

  unfoldable pub find_silences_by_alert_id :
      ℕ → String → SilenceTables Text → Result (List SilenceMark)
  unfolding find_current
  find_silences_by_alert_id at alert_id db = find_current (λ r. column_is r.alert_id alert_id) at db

  unfoldable pub find_silences_by_instance :
      ℕ → String → SilenceTables Text → Result (List SilenceMark)
  unfolding find_current
  find_silences_by_instance at name db = find_current (λ r. column_is r.instance_name name) at db

  unfoldable pub find_silences_by_fingerprint :
      ℕ → String → SilenceTables Text → Result (List SilenceMark)
  unfolding find_current
  find_silences_by_fingerprint at fingerprint db =
      find_current (λ r. column_is r.fingerprint fingerprint) at db

  abbrev matching_of : ℕ → Alert → Result (List SilenceMark) → Result (List SilenceMark)
  matching_of now a (ok silences) = ok (filter (matches_alert now a) silences)
  matching_of now a (err e) = err e

  -- MatchesAlert reads the clock of the program, at `now`.
  unfoldable pub find_matching_alert :
      ℕ → ℕ → Alert → SilenceTables Text → Result (List SilenceMark)
  unfolding is_current_at scan_silences
  find_matching_alert at now a db =
      matching_of now a (scan_silences (filter (is_current_at at) db.replica))

  unfoldable pub delete_silence : String → List (SilenceRow Text) → Result (List (SilenceRow Text))
  unfolding row_of delete_rows
  delete_silence id t = elim (row_of silence_id id t) [
    | none ↦ err (sentinel not_found)
    | some _ ↦ ok (delete_rows silence_id id t)
  ]

  -- The rows that stay, and how many went.
  unfoldable pub delete_expired : ℕ → List (SilenceRow Text) → List (SilenceRow Text) × ℕ
  delete_expired at t = let stay = filter (λ r. leb at r.end_at) t in (stay, length t - length stay)
