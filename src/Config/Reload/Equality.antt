-- ===== src/Config/Reload/Equality.antt =====
-- What detectStaticChanges of internal/infrastructure/config/reload.go compares.
use alert_bridge.Base.{◌≡◌, ◌↔◌, ◌∙◌, refl, Bool, true, false, [], eq_iff, arith}
use alert_bridge.Base.Int.{eqb_ℤ_iff}
use alert_bridge.Config.Types.{
  Config, MysqlConfig, MysqlInstanceConfig, MysqlReplicaConfig, MysqlPoolConfig,
}
use alert_bridge.Config.Reload.{
  same_flag, same_instance, same_replica, same_pool, same_mysql, detect_static_changes,
}

same_flag_iff : (a b : Bool) → (same_flag a b ≡ true) ↔ (a ≡ b)
same_flag_iff true b = ground arith
same_flag_iff false b = ground arith

same_instance_iff : (a b : MysqlInstanceConfig) → (same_instance a b ≡ true) ↔ (a ≡ b)
unfolding same_instance
same_instance_iff a b = ground (
  arith,
  eq_iff a.host b.host,
  eqb_ℤ_iff a.port b.port,
  eq_iff a.database b.database,
  eq_iff a.username b.username,
  eq_iff a.password b.password,
)

same_replica_iff : (a b : MysqlReplicaConfig) → (same_replica a b ≡ true) ↔ (a ≡ b)
unfolding same_replica
same_replica_iff a b = ground (
  arith,
  same_flag_iff a.enabled b.enabled,
  eq_iff a.host b.host,
  eqb_ℤ_iff a.port b.port,
  eq_iff a.database b.database,
  eq_iff a.username b.username,
  eq_iff a.password b.password,
)

same_pool_iff : (a b : MysqlPoolConfig) → (same_pool a b ≡ true) ↔ (a ≡ b)
unfolding same_pool
same_pool_iff a b = ground (
  arith,
  eqb_ℤ_iff a.max_open_conns b.max_open_conns,
  eqb_ℤ_iff a.max_idle_conns b.max_idle_conns,
  eqb_ℤ_iff a.conn_max_lifetime b.conn_max_lifetime,
  eqb_ℤ_iff a.conn_max_idle_time b.conn_max_idle_time,
)

pub same_mysql_iff : (a b : MysqlConfig) → (same_mysql a b ≡ true) ↔ (a ≡ b)
unfolding same_mysql
same_mysql_iff a b = ground (
  arith,
  same_instance_iff a.primary b.primary,
  same_replica_iff a.replica b.replica,
  same_pool_iff a.pool b.pool,
  eqb_ℤ_iff a.timeout b.timeout,
  same_flag_iff a.parse_time b.parse_time,
  eq_iff a.charset b.charset,
)

-- What a running process cannot change.
pub record SameStatic (a b : Config) : Type 0 where
  pub same_port : a.server.port ≡ b.server.port
  pub same_storage : a.storage.kind ≡ b.storage.kind
  pub same_path : a.storage.sqlite.path ≡ b.storage.sqlite.path
  pub same_database : a.storage.mysql ≡ b.storage.mysql

pub SameStatic-refl : (a : Config) → SameStatic a a
SameStatic-refl a = record {
  same_port = refl;
  same_storage = refl;
  same_path = refl;
  same_database = refl;
}

pub SameStatic-trans : (a b c : Config) → SameStatic a b → SameStatic b c → SameStatic a c
SameStatic-trans a b c p q = record {
  same_port = p.same_port ∙ q.same_port;
  same_storage = p.same_storage ∙ q.same_storage;
  same_path = p.same_path ∙ q.same_path;
  same_database = p.same_database ∙ q.same_database;
}

-- detectStaticChanges names no key exactly when the port, the type of the storage, the path and the
-- whole MySQL section are unchanged.
pub detect_static_changes_iff : (a b : Config) → (detect_static_changes a b ≡ []) ↔ SameStatic a b
unfolding detect_static_changes
detect_static_changes_iff a b = ground (
  arith,
  eqb_ℤ_iff a.server.port b.server.port,
  eq_iff a.storage.kind b.storage.kind,
  eq_iff a.storage.sqlite.path b.storage.sqlite.path,
  same_mysql_iff a.storage.mysql b.storage.mysql,
)
