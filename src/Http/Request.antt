-- ===== src/Http/Request.antt =====
-- What a handler of net/http gets and gives. A handler runs in a world `W` of its own and is a
-- function; the values of a header are listed under its canonical name.
use alert_bridge.Base.{ℕ, String, Option, List, [], ◌∷◌}
use alert_bridge.Base.Assoc.{Map, lookup, or_else}

-- `body` is what io.ReadAll reads, `none` an error of it; `path` is the cleaned path.
pub record Request : Type 0 where
  pub method : String
  pub path : String
  pub headers : Map (List String)
  pub body : Option String

pub record Response : Type 0 where
  pub status : ℕ
  pub body : String

abbrev pub Handler : Type 0 → Type 0
Handler W = Request → W → Response × W

-- r.Header.Values(name)
unfoldable pub header_values : String → Request → List String
header_values name r = or_else (lookup name r.headers) []

abbrev first_or_empty : List String → String
first_or_empty [] = ""
first_or_empty (v ∷ vs) = v

-- r.Header.Get(name)
unfoldable pub header : String → Request → String
header name r = first_or_empty (header_values name r)

-- http.Error(w, message, status)
abbrev pub deny : {W : Type 0} → ℕ → String → W → Response × W
deny status message w = (record { status = status; body = message }, w)
