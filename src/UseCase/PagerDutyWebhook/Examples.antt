-- ===== src/UseCase/PagerDutyWebhook/Examples.antt =====
-- Tests and instances for the PagerDuty webhook.
use alert_bridge.Base.{◌≢◌, none, [], eq_iff, arith}
use alert_bridge.UseCase.MemoryStores.{Stores, memory_alert_store}
use alert_bridge.UseCase.PagerDutyWebhook.{HandleWebhookUseCase}
use alert_bridge.UseCase.SyncAck.Stored
use alert_bridge.Samples.{disk_full}

abbrev pub webhook : HandleWebhookUseCase Stores
webhook = record {
  alert_repo = memory_alert_store;
  sync_ack = Stored.in_memory [];
  slack_updater = none;
}

key_is_set : disk_full.fingerprint ≢ ""
key_is_set e = ground (arith, eq_iff "fp-1" "")
