-- ===== src/Sqlite/AlertRepository/Contents.antt =====
-- What a row keeps of an alert, and the table as the alerts by their id: the abstract store.
use Prim.Native.Nat.{◌/◌}
use alert_bridge.Base.{
  ℕ, ◌*◌, String, ◌≡◌, refl, sym, inl, inr, Bool-cases, Option, none, some, List, eq_iff, ◌==◌,
  if◌then◌else◌,
}
use alert_bridge.Base.Assoc.{Map}
use alert_bridge.Base.Heap.{Heap, read}
use alert_bridge.Entity.Alert.{Alert}
use alert_bridge.Errors.{Result, ok, err, sentinel, duplicate_alert, alert_not_found}
use alert_bridge.Sql.Json.{JsonCodec}
use alert_bridge.Sql.Tables.{row_of, map_option}
use alert_bridge.Sqlite.Columns.{
  second, null_string, string_from_null, time_to_string, parse_time, null_time, scan_null_time,
  marshal_json, unmarshal_json,
}
use alert_bridge.Sqlite.AlertRepository.{AlertRow, row_id, to_row, load}

-- An alert by value, and its map of references by value.
abbrev pub Content : Type 0
Content = Alert × Map String

-- The whole seconds of a time.
abbrev pub kept : ℕ → ℕ
kept t = t / second * second

abbrev pub content : Heap → Alert → Content
content h a = (
  record a {
    external_references = none;
    fired_at = kept a.fired_at;
    acked_at = map_option kept a.acked_at;
    resolved_at = map_option kept a.resolved_at;
    created_at = kept a.created_at;
    updated_at = kept a.updated_at;
  },
  read h a.external_references,
)

null_string_round : (s : String) → string_from_null (null_string s) ≡ s
unfolding null_string string_from_null
null_string_round s = elim (Bool-cases (s == "")) [
  | inl e ↦ rw (e) (sym ((eq_iff s "").0 e))
  | inr e ↦ rw (e) refl
]

null_time_round : (t : Option ℕ) → scan_null_time (null_time t) ≡ map_option kept t
unfolding scan_null_time null_time time_to_string parse_time
null_time_round none = refl
null_time_round (some t) = refl

module _ (c : JsonCodec) where
  encode_round : (m : Map String) → unmarshal_json c (c.encode m) ≡ m
  unfolding unmarshal_json
  encode_round m = rw (c.decode-encode m, unmarshal_json) refl

  marshal_round : (h : Heap) (p : Option ℕ) → unmarshal_json c (marshal_json c h p) ≡ read h p
  unfolding marshal_json unmarshal_json read
  marshal_round h none = rw (c.decode-empty_object, unmarshal_json) refl
  marshal_round h (some p) = rw (c.decode-encode (h.cells p), unmarshal_json) refl

  -- A row reads back as the alert that was written, its times cut to whole seconds.
  pub load-to_row : (h : Heap) (a : Alert) → load c (to_row c h a) ≡ content h a
  load-to_row h a =
      unfold load to_row time_to_string parse_time in
      rw
        (
          null_string_round a.acked_by,
          null_time_round a.acked_at,
          null_time_round a.resolved_at,
          encode_round a.labels,
          encode_round a.annotations,
          marshal_round h a.external_references,
        )
        refl

-- The abstract store: at most one alert for an id.
abbrev pub Contents : Type 0
Contents = String → Option Content

abbrev pub put : String → Content → Contents → Contents
put id x f k = if id == k then some x else f k

abbrev pub remove : String → Contents → Contents
remove id f k = if id == k then none else f k

-- The time of creation is the one at which the alert was saved.
abbrev pub created_when : Content → Content → Content
created_when old x = (record x.0 { created_at = old.0.created_at }, x.1)

abbrev pub saved : String → Content → Contents → Result Contents
saved id x f = elim (f id) [ some _ ↦ err (sentinel duplicate_alert) | none ↦ ok (put id x f) ]

abbrev pub updated : String → Content → Contents → Result Contents
updated id x f = elim (f id) [
  | none ↦ err (sentinel alert_not_found)
  | some old ↦ ok (put id (created_when old x) f)
]

abbrev pub deleted : String → Contents → Result Contents
deleted id f = elim (f id) [ none ↦ err (sentinel alert_not_found) | some _ ↦ ok (remove id f) ]

abbrev pub map_result : {A B : Type 0} → (A → B) → Result A → Result B
map_result f (ok x) = ok (f x)
map_result f (err e) = err e

-- The abstract store of a table.
abbrev pub contents : (c : JsonCodec) → List (AlertRow c.Text) → Contents
contents c t id = map_option (load c) (row_of row_id id t)
