-- ===== src/Config/Types.antt =====
-- The records of internal/infrastructure/config/config.go. A port and a number of connections are
-- signed machine integers, a time.Duration is an integer of nanoseconds.
use alert_bridge.Base.{ℕ, ◌*◌, String, Bool, false, List, []}
use alert_bridge.Base.Int.{ℤ, pos}
use alert_bridge.Service.SubscriberMatcher.{SubscriberConfig, get_enabled_subscribers}

pub record SqliteConfig : Type 0 where
  pub path : String

pub record MysqlInstanceConfig : Type 0 where
  pub host : String
  pub port : ℤ
  pub database : String
  pub username : String
  pub password : String

pub record MysqlReplicaConfig : Type 0 where
  pub enabled : Bool
  pub host : String
  pub port : ℤ
  pub database : String
  pub username : String
  pub password : String

pub record MysqlPoolConfig : Type 0 where
  pub max_open_conns : ℤ
  pub max_idle_conns : ℤ
  pub conn_max_lifetime : ℤ
  pub conn_max_idle_time : ℤ

pub record MysqlConfig : Type 0 where
  pub primary : MysqlInstanceConfig
  pub replica : MysqlReplicaConfig
  pub pool : MysqlPoolConfig
  pub timeout : ℤ
  pub parse_time : Bool
  pub charset : String

-- `kind` is the field Type: "memory", "sqlite" or "mysql".
pub record StorageConfig : Type 0 where
  pub kind : String
  pub sqlite : SqliteConfig
  pub mysql : MysqlConfig

pub record ServerConfig : Type 0 where
  pub port : ℤ
  pub read_timeout : ℤ
  pub write_timeout : ℤ
  pub request_timeout : ℤ
  pub shutdown_timeout : ℤ

pub record SocketModeConfig : Type 0 where
  pub enabled : Bool
  pub app_token : String
  pub debug : Bool
  pub ping_interval : ℤ

pub record SlackConfig : Type 0 where
  pub enabled : Bool
  pub bot_token : String
  pub signing_secret : String
  pub channel_id : String
  pub app_id : String
  pub api_url : String
  pub socket_mode : SocketModeConfig

pub record PagerDutyConfig : Type 0 where
  pub enabled : Bool
  pub api_token : String
  pub routing_key : String
  pub service_id : String
  pub webhook_secret : String
  pub from_email : String
  pub default_severity : String
  pub api_url : String

pub record AlertingConfig : Type 0 where
  pub deduplication_window : ℤ
  pub resend_interval : ℤ
  pub silence_durations : List ℤ

pub record LoggingConfig : Type 0 where
  pub level : String
  pub format : String

pub record AlertmanagerConfig : Type 0 where
  pub webhook_secret : String
  pub allowed_ips : List String

pub record Config : Type 0 where
  pub server : ServerConfig
  pub storage : StorageConfig
  pub slack : SlackConfig
  pub pager_duty : PagerDutyConfig
  pub alerting : AlertingConfig
  pub logging : LoggingConfig
  pub alertmanager : AlertmanagerConfig
  pub subscribers : List SubscriberConfig

unfoldable pub is_slack_enabled : Config → Bool
is_slack_enabled c = c.slack.enabled

unfoldable pub is_pager_duty_enabled : Config → Bool
is_pager_duty_enabled c = c.pager_duty.enabled

-- (*Config).GetEnabledSubscribers
unfoldable pub enabled_subscribers : Config → List SubscriberConfig
enabled_subscribers c = get_enabled_subscribers c.subscribers

-- Config{}
abbrev pub zero_config : Config
zero_config = record {
  server = record {
    port = pos 0;
    read_timeout = pos 0;
    write_timeout = pos 0;
    request_timeout = pos 0;
    shutdown_timeout = pos 0;
  };
  storage = record {
    kind = "";
    sqlite = record { path = "" };
    mysql = record {
      primary = record { host = ""; port = pos 0; database = ""; username = ""; password = "" };
      replica = record {
        enabled = false;
        host = "";
        port = pos 0;
        database = "";
        username = "";
        password = "";
      };
      pool = record {
        max_open_conns = pos 0;
        max_idle_conns = pos 0;
        conn_max_lifetime = pos 0;
        conn_max_idle_time = pos 0;
      };
      timeout = pos 0;
      parse_time = false;
      charset = "";
    };
  };
  slack = record {
    enabled = false;
    bot_token = "";
    signing_secret = "";
    channel_id = "";
    app_id = "";
    api_url = "";
    socket_mode = record { enabled = false; app_token = ""; debug = false; ping_interval = pos 0 };
  };
  pager_duty = record {
    enabled = false;
    api_token = "";
    routing_key = "";
    service_id = "";
    webhook_secret = "";
    from_email = "";
    default_severity = "";
    api_url = "";
  };
  alerting = record {
    deduplication_window = pos 0;
    resend_interval = pos 0;
    silence_durations = [];
  };
  logging = record { level = ""; format = "" };
  alertmanager = record { webhook_secret = ""; allowed_ips = [] };
  subscribers = [];
}

-- time.Second and time.Minute
abbrev pub seconds : ℕ → ℤ
seconds n = pos (n * 1_000_000_000)

abbrev pub minutes : ℕ → ℤ
minutes n = pos (n * 60_000_000_000)
