-- ===== src/Config/Load.antt =====
-- Load of internal/infrastructure/config/config.go. What it takes from the machine at the time of the
-- call is a record: the environment, the file, and the libraries that read durations and YAML.
use alert_bridge.Base.{
  String, ◌≡◌, inl, inr, Option, none, some, is_set, if◌then◌else◌, arith, Option-cases,
}
use mathlib.Core.Path.{subst}
use alert_bridge.Base.Int.{ℤ}
use alert_bridge.Errors.{other, wrapped, Result, ok, err}
use alert_bridge.Config.Types.{Config, zero_config}
use alert_bridge.Config.Environment.{override_from_env}
use alert_bridge.Config.Defaults.{apply_defaults}
use alert_bridge.Config.Validator.{validate}
use alert_bridge.Config.Validator.Valid.{IsValid, validate-IsValid}

-- os.ReadFile, with os.IsNotExist told apart from the other errors
pub data FileRead : Type 0 where
  contents : String → FileRead
  not_exist : FileRead
  unreadable : String → FileRead

-- `expand_env` is os.ExpandEnv; `unmarshal` is yaml.Unmarshal into the zero configuration.
pub record Machine : Type 0 where
  pub getenv : String → String
  pub parse_duration : String → Option ℤ
  pub show_duration : ℤ → String
  pub read_file : String → FileRead
  pub expand_env : String → String
  pub unmarshal : String → Result Config

abbrev parsed : Result Config → Result Config
parsed (ok c) = ok c
parsed (err e) = err (wrapped "parsing config file" e)

abbrev from_file : Machine → FileRead → Result Config
from_file m (contents text) = parsed (m.unmarshal (m.expand_env text))
from_file m not_exist = ok zero_config
from_file m (unreadable e) = err (wrapped "reading config file" (other e))

abbrev checked : Config → Option String → Result Config
checked c none = ok c
checked c (some e) = err (other e)

abbrev completed : Machine → Result Config → Result Config
completed m (err e) = err e
completed m (ok c) =
    let cfg = apply_defaults (override_from_env m.getenv m.parse_duration c) in
    checked cfg (validate m.show_duration cfg)

unfoldable pub load : Machine → String → Result Config
load m path = completed m (if is_set path then from_file m (m.read_file path) else ok zero_config)

checked-IsValid :
    (m : Machine) (c d : Config) → checked c (validate m.show_duration c) ≡ ok d → IsValid d
checked-IsValid m c d h = elim (Option-cases (validate m.show_duration c)) [
  | inl n ↦
      let same : c ≡ d = ground (arith, n, h) in
      subst IsValid same ((validate-IsValid m.show_duration c).0 n)
  | inr (e, s) ↦ absurd (ground (arith, s, h))
]

completed-IsValid :
    (m : Machine) (r : Result Config) (d : Config) → completed m r ≡ ok d → IsValid d
completed-IsValid m (ok c) d h =
    checked-IsValid m (apply_defaults (override_from_env m.getenv m.parse_duration c)) d h
completed-IsValid m (err e) d h = absurd (ground (arith, h))

-- Whatever the file and the environment say, a configuration that Load returns is valid.
pub load-IsValid : (m : Machine) (path : String) (c : Config) → load m path ≡ ok c → IsValid c
unfolding load
load-IsValid m path c h = completed-IsValid m _ c h
