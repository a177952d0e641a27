-- ===== src/Http/Ready.antt =====
-- internal/adapter/handler/health.go: the readiness check. A checker is asked whether its dependency
-- answers; the JSON of the answer is left out, as is the time.
use alert_bridge.Base.{
  ℕ, String, Bool, true, false, ◌&&◌, Option, none, some, [], ◌∷◌, ◌==◌, if◌then◌else◌,
}
use alert_bridge.Base.Assoc.{Map, insert}

-- ReadinessChecker, by the error of its Ping.
abbrev pub Checker : Type 0
Checker = Option String

pub record ReadyResponse : Type 0 where
  pub status : ℕ
  pub checks : Map (Option String)

unfoldable pub add_checker : String → Checker → Map Checker → Map Checker
add_checker name checker checkers = insert name checker checkers

abbrev is_ready : Checker → Bool
is_ready none = true
is_ready (some e) = false

-- The loop over the checkers: allReady, and an entry for each.
unfoldable pub all_ready : Map Checker → Bool
all_ready [] = true
all_ready ((name, checker) ∷ checkers) = is_ready checker && all_ready checkers

-- (*ReadyHandler).ServeHTTP on a request with this method
unfoldable pub serve_ready : Map Checker → String → ReadyResponse
serve_ready checkers method =
    if method == "GET"
    then record { status = if all_ready checkers then 200 else 503; checks = checkers }
    else record { status = 405; checks = [] }
