-- ===== src/Sql/Json.antt =====
-- JSON texts in a column: encoding/json and the database's json_extract are not this repository's
-- code. A text is an abstract value; what is written of a map of texts reads back as the map, and
-- a nil map is "{}" or "null", and json_extract with the path "$.key" gives the value of a key of plain letters.
use alert_bridge.Base.{String, Bool, true, ◌≡◌, refl, Option, some, []}
use alert_bridge.Base.Assoc.{Map, lookup}

pub record JsonCodec : Type 1 where
  pub Text : Type 0
  pub empty_object : Text
  pub null_object : Text
  pub encode : Map String → Text
  pub decode : Text → Option (Map String)
  pub extract : Text → String → Option String
  pub is_plain : String → Bool
  pub decode-encode : (m : Map String) → decode (encode m) ≡ some m
  pub decode-empty_object : decode empty_object ≡ some []
  pub decode-null_object : decode null_object ≡ some []
  pub extract-encode :
      (m : Map String) (key : String) → is_plain key ≡ true → extract (encode m) key ≡ lookup key m

-- A map as its own text.
abbrev pub plain_json : JsonCodec
plain_json = record {
  Text = Map String;
  empty_object = [];
  null_object = [];
  encode = λ m. m;
  decode = λ m. some m;
  extract = λ m key. lookup key m;
  is_plain = λ key. true;
  decode-encode = λ m. refl;
  decode-empty_object = refl;
  decode-null_object = refl;
  extract-encode = λ m key p. refl;
}
