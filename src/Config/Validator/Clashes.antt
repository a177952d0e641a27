-- ===== src/Config/Validator/Clashes.antt =====
-- Where the defaults of internal/infrastructure/config/config.go meet the checks of validator.go.
use alert_bridge.Base.{ℕ, suc, ◌≤◌, String, ◌≡◌, ◌≢◌, none, refl, ◌==◌, if◌then◌else◌, arith}
use alert_bridge.Base.Int.{ℤ, pos}
use alert_bridge.Config.Types.{Config}
use alert_bridge.Config.Defaults.{apply_defaults}
use alert_bridge.Config.Validator.{validate}
use alert_bridge.Config.Validator.Valid.{
  IsValidServer, IsValidPool, IsValidStorage, validate-IsValid,
}

-- A write timeout of 25 seconds or less, with no request timeout set, is refused: the default of the
-- request timeout is 25 seconds.
pub short_write_timeout-refused :
    (show_duration : ℤ → String) (c : Config) (n : ℕ)
    → c.server.request_timeout ≡ pos 0
    → c.server.write_timeout ≡ pos (suc n)
    → suc n ≤ 25_000_000_000
    → validate show_duration (apply_defaults c) ≢ none
unfolding apply_defaults
short_write_timeout-refused show_duration c n r w le e =
    let server : IsValidServer (apply_defaults c).server =
      ((validate-IsValid show_duration (apply_defaults c)).0 e).0 in
    ground (arith, r, w, le, server.1.1.1.1.1)

kind_kept : (s : String) → s ≡ "mysql" → (if s == "" then "memory" else s) ≡ "mysql"
kind_kept s k = rw (k) refl

-- With MySQL, one to four open connections and no number of idle connections set, or zero of them
-- asked for, is refused: the default of the idle connections is 5.
pub small_pool-refused :
    (show_duration : ℤ → String) (c : Config) (n : ℕ)
    → c.storage.kind ≡ "mysql"
    → c.storage.mysql.pool.max_idle_conns ≡ pos 0
    → c.storage.mysql.pool.max_open_conns ≡ pos (suc n)
    → suc n ≤ 4
    → validate show_duration (apply_defaults c) ≢ none
unfolding apply_defaults
small_pool-refused show_duration c n k i o le e =
    let storage : IsValidStorage (apply_defaults c).storage =
      ((validate-IsValid show_duration (apply_defaults c)).0 e).1.0 in
    let kind : (apply_defaults c).storage.kind ≡ "mysql" = kind_kept c.storage.kind k in
    let pool : IsValidPool (apply_defaults c).storage.mysql.pool = (storage.1.1 kind).1.1 in
    pool.1.1 (ground (arith, i, o, le))
