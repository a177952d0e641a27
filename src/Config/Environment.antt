-- ===== src/Config/Environment.antt =====
-- overrideFromEnv of internal/infrastructure/config/config.go. `getenv` is os.Getenv and
-- `parse_duration` is time.ParseDuration, with `none` for an error.
use alert_bridge.Base.{String, Bool, Option, ◌==◌, is_set, if◌then◌else◌}
use alert_bridge.Base.Int.{ℤ}
use alert_bridge.Base.Text.{to_lower, parse_int}
use alert_bridge.Base.Assoc.{or_else}
use alert_bridge.Config.Types.{Config, MysqlConfig, SlackConfig, PagerDutyConfig}

module _ (getenv : String → String) (parse_duration : String → Option ℤ) where
  -- if v := os.Getenv(name); v != "" { field = v }
  abbrev text_env : String → String → String
  text_env name held = if is_set (getenv name) then getenv name else held

  -- field = strings.ToLower(v) == "true"
  abbrev flag_env : String → Bool → Bool
  flag_env name held = if is_set (getenv name) then to_lower (getenv name) == "true" else held

  -- A number that strconv.Atoi refuses leaves the field as it is.
  abbrev int_env : String → ℤ → ℤ
  int_env name held = if is_set (getenv name) then or_else (parse_int (getenv name)) held else held

  abbrev duration_env : String → ℤ → ℤ
  duration_env name held =
      if is_set (getenv name) then or_else (parse_duration (getenv name)) held else held

  unfoldable slack_from_env : SlackConfig → SlackConfig
  slack_from_env s = record {
    enabled = flag_env "SLACK_ENABLED" s.enabled;
    bot_token = text_env "SLACK_BOT_TOKEN" s.bot_token;
    signing_secret = text_env "SLACK_SIGNING_SECRET" s.signing_secret;
    channel_id = text_env "SLACK_CHANNEL_ID" s.channel_id;
    app_id = text_env "SLACK_APP_ID" s.app_id;
    api_url = s.api_url;
    socket_mode = record {
      enabled = flag_env "SLACK_SOCKET_MODE_ENABLED" s.socket_mode.enabled;
      app_token = text_env "SLACK_SOCKET_MODE_APP_TOKEN" s.socket_mode.app_token;
      debug = flag_env "SLACK_SOCKET_MODE_DEBUG" s.socket_mode.debug;
      ping_interval = duration_env "SLACK_SOCKET_MODE_PING_INTERVAL" s.socket_mode.ping_interval;
    };
  }

  unfoldable pager_duty_from_env : PagerDutyConfig → PagerDutyConfig
  pager_duty_from_env p = record {
    enabled = flag_env "PAGERDUTY_ENABLED" p.enabled;
    api_token = text_env "PAGERDUTY_API_TOKEN" p.api_token;
    routing_key = text_env "PAGERDUTY_ROUTING_KEY" p.routing_key;
    service_id = text_env "PAGERDUTY_SERVICE_ID" p.service_id;
    webhook_secret = text_env "PAGERDUTY_WEBHOOK_SECRET" p.webhook_secret;
    from_email = text_env "PAGERDUTY_FROM_EMAIL" p.from_email;
    default_severity = text_env "PAGERDUTY_DEFAULT_SEVERITY" p.default_severity;
    api_url = p.api_url;
  }

  unfoldable mysql_from_env : MysqlConfig → MysqlConfig
  mysql_from_env m = record m {
    primary = record {
      host = text_env "MYSQL_HOST" m.primary.host;
      port = int_env "MYSQL_PORT" m.primary.port;
      database = text_env "MYSQL_DATABASE" m.primary.database;
      username = text_env "MYSQL_USERNAME" m.primary.username;
      password = text_env "MYSQL_PASSWORD" m.primary.password;
    };
    pool = record {
      max_open_conns = int_env "MYSQL_MAX_OPEN_CONNS" m.pool.max_open_conns;
      max_idle_conns = int_env "MYSQL_MAX_IDLE_CONNS" m.pool.max_idle_conns;
      conn_max_lifetime = duration_env "MYSQL_CONN_MAX_LIFETIME" m.pool.conn_max_lifetime;
      conn_max_idle_time = duration_env "MYSQL_CONN_MAX_IDLE_TIME" m.pool.conn_max_idle_time;
    };
    replica = record {
      enabled = flag_env "MYSQL_REPLICA_ENABLED" m.replica.enabled;
      host = text_env "MYSQL_REPLICA_HOST" m.replica.host;
      port = int_env "MYSQL_REPLICA_PORT" m.replica.port;
      database = text_env "MYSQL_REPLICA_DATABASE" m.replica.database;
      username = text_env "MYSQL_REPLICA_USERNAME" m.replica.username;
      password = text_env "MYSQL_REPLICA_PASSWORD" m.replica.password;
    };
  }

  unfoldable pub override_from_env : Config → Config
  unfolding slack_from_env pager_duty_from_env mysql_from_env
  override_from_env c = record c {
    server = record c.server { port = int_env "SERVER_PORT" c.server.port };
    slack = slack_from_env c.slack;
    pager_duty = pager_duty_from_env c.pager_duty;
    logging = record {
      level = text_env "LOG_LEVEL" c.logging.level;
      format = text_env "LOG_FORMAT" c.logging.format;
    };
    alertmanager = record c.alertmanager {
      webhook_secret = text_env "ALERTMANAGER_WEBHOOK_SECRET" c.alertmanager.webhook_secret;
    };
    storage = record {
      kind = text_env "STORAGE_TYPE" c.storage.kind;
      sqlite = record { path = text_env "SQLITE_DATABASE_PATH" c.storage.sqlite.path };
      mysql = mysql_from_env c.storage.mysql;
    };
  }
