-- ===== src/Config/Defaults.antt =====
-- applyDefaults of internal/infrastructure/config/config.go.
use alert_bridge.Base.{String, ◌≡◌, refl, true, false, List, [], ◌∷◌, ◌==◌, if◌then◌else◌, arith}
use alert_bridge.Base.Int.{ℤ, pos, eqb_ℤ}
use alert_bridge.Config.Types.{
  Config, ServerConfig, StorageConfig, MysqlConfig, MysqlPoolConfig, AlertingConfig, SlackConfig,
  PagerDutyConfig, LoggingConfig, seconds, minutes,
}

-- if v == 0 { v = d }
abbrev int_or : ℤ → ℤ → ℤ
int_or d v = if eqb_ℤ v (pos 0) then d else v

-- if v == "" { v = d }
abbrev text_or : String → String → String
text_or d v = if v == "" then d else v

abbrev durations_or : List ℤ → List ℤ → List ℤ
durations_or d [] = d
durations_or d (v ∷ vs) = v ∷ vs

unfoldable server_defaults : ServerConfig → ServerConfig
server_defaults s = record {
  port = int_or (pos 8080) s.port;
  read_timeout = int_or (seconds 5) s.read_timeout;
  write_timeout = int_or (seconds 30) s.write_timeout;
  request_timeout = int_or (seconds 25) s.request_timeout;
  shutdown_timeout = int_or (seconds 30) s.shutdown_timeout;
}

abbrev default_silence_durations : List ℤ
default_silence_durations = minutes 15 ∷ minutes 60 ∷ minutes 240 ∷ minutes 1440 ∷ []

unfoldable alerting_defaults : AlertingConfig → AlertingConfig
alerting_defaults a = record {
  deduplication_window = int_or (minutes 5) a.deduplication_window;
  resend_interval = int_or (minutes 30) a.resend_interval;
  silence_durations = durations_or default_silence_durations a.silence_durations;
}

unfoldable slack_defaults : SlackConfig → SlackConfig
slack_defaults s = record s {
  socket_mode = record s.socket_mode {
    ping_interval = int_or (seconds 30) s.socket_mode.ping_interval;
  };
}

unfoldable pager_duty_defaults : PagerDutyConfig → PagerDutyConfig
pager_duty_defaults p = record p { default_severity = text_or "warning" p.default_severity }

unfoldable logging_defaults : LoggingConfig → LoggingConfig
logging_defaults l = record { level = text_or "info" l.level; format = text_or "json" l.format }

unfoldable pool_defaults : MysqlPoolConfig → MysqlPoolConfig
pool_defaults p = record {
  max_open_conns = int_or (pos 25) p.max_open_conns;
  max_idle_conns = int_or (pos 5) p.max_idle_conns;
  conn_max_lifetime = int_or (minutes 3) p.conn_max_lifetime;
  conn_max_idle_time = int_or (minutes 1) p.conn_max_idle_time;
}

-- ParseTime is set to true whatever it was.
unfoldable mysql_defaults : MysqlConfig → MysqlConfig
unfolding pool_defaults
mysql_defaults m = record {
  primary = record m.primary { port = int_or (pos 3306) m.primary.port };
  replica = record m.replica { port = int_or (pos 3306) m.replica.port };
  pool = pool_defaults m.pool;
  timeout = int_or (seconds 5) m.timeout;
  parse_time = true;
  charset = text_or "utf8mb4" m.charset;
}

unfoldable storage_defaults : StorageConfig → StorageConfig
unfolding mysql_defaults
storage_defaults s = record {
  kind = text_or "memory" s.kind;
  sqlite = record { path = text_or "./data/alert-bridge.db" s.sqlite.path };
  mysql = mysql_defaults s.mysql;
}

unfoldable pub apply_defaults : Config → Config
unfolding server_defaults storage_defaults slack_defaults pager_duty_defaults alerting_defaults
    logging_defaults
apply_defaults c = record c {
  server = server_defaults c.server;
  storage = storage_defaults c.storage;
  slack = slack_defaults c.slack;
  pager_duty = pager_duty_defaults c.pager_duty;
  alerting = alerting_defaults c.alerting;
  logging = logging_defaults c.logging;
}

int_or_twice : (d v : ℤ) → eqb_ℤ d (pos 0) ≡ false → int_or d (int_or d v) ≡ int_or d v
int_or_twice d v e = ground arith

text_or_twice : (d v : String) → (d == "") ≡ false → text_or d (text_or d v) ≡ text_or d v
text_or_twice d v e = ground arith

durations_or_twice : (d v : List ℤ) → durations_or d (durations_or d v) ≡ durations_or d v
durations_or_twice [] [] = refl
durations_or_twice (d ∷ ds) [] = refl
durations_or_twice d (v ∷ vs) = refl

pub apply_defaults_idempotent : (c : Config) → apply_defaults (apply_defaults c) ≡ apply_defaults c
unfolding apply_defaults
apply_defaults_idempotent c = simp (int_or_twice, text_or_twice, durations_or_twice) refl
