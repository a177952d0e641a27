-- ===== src/Config/Reload.antt =====
-- internal/infrastructure/config/reload.go: what TryReload does, in the order of its locked sections.
-- The logger is left out, and of a ConfigDiff the keys alone are kept.
pub mod Equality
pub mod Interleavings
pub mod Outcome
use alert_bridge.Base.{
  String, Bool, true, false, not, ◌&&◌, ◌||◌, Option, none, some, List, [], ◌∷◌, ◌++◌, ◌==◌,
  if◌then◌else◌, contains,
}
use alert_bridge.Base.Int.{ℤ, eqb_ℤ}
use alert_bridge.Errors.{Error, wrapped, Result, ok, err}
use alert_bridge.Config.Types.{
  Config, MysqlConfig, MysqlInstanceConfig, MysqlReplicaConfig, MysqlPoolConfig,
}
use alert_bridge.Config.Load.{Machine, load}

abbrev pub same_flag : Bool → Bool → Bool
same_flag true b = b
same_flag false b = not b

unfoldable pub same_instance : MysqlInstanceConfig → MysqlInstanceConfig → Bool
same_instance a b =
    (a.host == b.host)
    && eqb_ℤ a.port b.port
    && (a.database == b.database)
    && (a.username == b.username)
    && (a.password == b.password)

unfoldable pub same_replica : MysqlReplicaConfig → MysqlReplicaConfig → Bool
same_replica a b =
    same_flag a.enabled b.enabled
    && (a.host == b.host)
    && eqb_ℤ a.port b.port
    && (a.database == b.database)
    && (a.username == b.username)
    && (a.password == b.password)

unfoldable pub same_pool : MysqlPoolConfig → MysqlPoolConfig → Bool
same_pool a b =
    eqb_ℤ a.max_open_conns b.max_open_conns
    && eqb_ℤ a.max_idle_conns b.max_idle_conns
    && eqb_ℤ a.conn_max_lifetime b.conn_max_lifetime
    && eqb_ℤ a.conn_max_idle_time b.conn_max_idle_time

-- reflect.DeepEqual on two MySQLConfig
unfoldable pub same_mysql : MysqlConfig → MysqlConfig → Bool
same_mysql a b =
    same_instance a.primary b.primary
    && same_replica a.replica b.replica
    && same_pool a.pool b.pool
    && eqb_ℤ a.timeout b.timeout
    && same_flag a.parse_time b.parse_time
    && (a.charset == b.charset)

-- if differs { changes = append(changes, key) }
abbrev pub changed : Bool → String → List String → List String
changed same key rest = if same then rest else key ∷ rest

-- detectStaticChanges
unfoldable pub detect_static_changes : Config → Config → List String
detect_static_changes old new = changed (eqb_ℤ old.server.port new.server.port) "server.port" (
    changed (old.storage.kind == new.storage.kind) "storage.type" (
      changed (old.storage.sqlite.path == new.storage.sqlite.path) "storage.sqlite.path"
        (changed (same_mysql old.storage.mysql new.storage.mysql) "storage.mysql" [])))

-- extractConfigDiff(oldCfg, newCfg).ChangedKeys
unfoldable pub changed_keys : Config → Config → List String
changed_keys old new = changed (old.logging.level == new.logging.level) "logging.level" (
    changed (old.logging.format == new.logging.format) "logging.format" (
      changed (old.slack.channel_id == new.slack.channel_id) "slack.channel_id" (
        changed (eqb_ℤ old.alerting.deduplication_window new.alerting.deduplication_window)
          "alerting.deduplication_window"
          (changed (eqb_ℤ old.alerting.resend_interval new.alerting.resend_interval)
            "alerting.resend_interval" []))))

-- reloadableKeys and IsReloadable, of validator.go
abbrev pub reloadable_keys : List String
reloadable_keys =
    "logging.level" ∷ "logging.format" ∷ "slack.channel_id" ∷ "alerting.deduplication_window"
    ∷ "alerting.resend_interval" ∷ []

unfoldable pub is_reloadable : String → Bool
is_reloadable key = contains key reloadable_keys

-- An error of TryReload: ErrRequiresRestart, or that of Load behind its message.
pub data ReloadError : Type 0 where
  requires_restart : ReloadError
  load_failed : Error → ReloadError

-- `observed` has the configurations that the callback was called with, latest first.
pub record ConfigManager : Type 0 where
  pub config : Config
  pub config_path : String
  pub on_reload_success : Bool
  pub observed : List Config

unfoldable pub new_config_manager : Config → String → ConfigManager
new_config_manager cfg path = record {
  config = cfg;
  config_path = path;
  on_reload_success = false;
  observed = [];
}

unfoldable pub set_reload_callback : ConfigManager → ConfigManager
set_reload_callback cm = record cm { on_reload_success = true }

-- The swap, and the callback if one is set.
abbrev pub swap : Config → ConfigManager → ConfigManager
swap new cm = record cm {
  config = new;
  observed = if cm.on_reload_success then new ∷ cm.observed else cm.observed;
}

abbrev admitted : Config → List String → ConfigManager → Option ReloadError × ConfigManager
admitted new [] cm = (none, swap new cm)
admitted new (_ ∷ _) cm = (some requires_restart, cm)

abbrev reloaded : Result Config → ConfigManager → Option ReloadError × ConfigManager
reloaded (err e) cm = (some (load_failed (wrapped "parse failed" e)), cm)
reloaded (ok new) cm = admitted new (detect_static_changes cm.config new) cm

-- TryReload, without another one in between; `none` is the nil error.
unfoldable pub try_reload : Machine → ConfigManager → Option ReloadError × ConfigManager
try_reload m cm = reloaded (load m cm.config_path) cm
