-- ===== src/Samples.antt =====
-- Concrete data for the tests.
use alert_bridge.Base.{◌+◌, none, some, [], ◌∷◌}
use alert_bridge.Base.Heap.{Heap}
use alert_bridge.Errors.{ok, err, other}
use alert_bridge.Entity.Alert.{Alert, active, critical}
use alert_bridge.Entity.AckEvent.{AckEvent, slack}
use alert_bridge.Entity.SilenceMark.{SilenceMark}
use alert_bridge.Memory.AckEventRepository.{AckEventRepository}
use alert_bridge.Memory.AlertRepository.{AlertRepository}
use alert_bridge.Memory.SilenceRepository.{SilenceRepository}
use alert_bridge.UseCase.AlertInput.{ProcessAlertInput}
use alert_bridge.UseCase.MemoryStores.{Stores, memory_alert_store, memory_silence_store}
use alert_bridge.UseCase.Notify.{Notifier, ProcessAlertUseCase}
use alert_bridge.UseCase.World.{World}

abbrev pub empty_heap : Heap
empty_heap = record { next = 1; cells = λ p. [] }

abbrev pub disk_full : Alert
disk_full = record {
  id = "a-1";
  fingerprint = "fp-1";
  name = "DiskFull";
  instance_name = "host-1";
  target = "node";
  summary = "disk full";
  description = "";
  severity = critical;
  state = active;
  labels = ("team", "infra") ∷ [];
  annotations = [];
  external_references = some 0;
  fired_at = 90;
  acked_at = none;
  acked_by = "";
  resolved_at = none;
  created_at = 90;
  updated_at = 90;
}

abbrev pub fresh_alerts : AlertRepository
fresh_alerts = record { alerts = []; by_fingerprint = []; by_external_ref = [] }

abbrev pub one_alert : AlertRepository
one_alert = record {
  alerts = ("a-1", disk_full) ∷ [];
  by_fingerprint = ("fp-1", "a-1" ∷ []) ∷ [];
  by_external_ref = [];
}

abbrev pub maintenance : SilenceMark
maintenance = record {
  id = "s-1";
  alert_id = "";
  instance_name = "";
  fingerprint = "fp-2";
  labels = [];
  start_at = 50;
  end_at = 500;
  created_by = "kim";
  created_by_email = "kim@example.com";
  reason = "";
  source = slack;
  created_at = 50;
}

abbrev pub one_silence : SilenceRepository
one_silence = record {
  silences = ("s-1", maintenance) ∷ [];
  by_alert_id = [];
  by_instance = [];
  by_fingerprint = ("fp-2", "s-1" ∷ []) ∷ [];
}

abbrev pub no_events : AckEventRepository
no_events = record { events = []; by_alert_id = [] }

abbrev pub stores : Stores
stores = record { alerts = one_alert; silences = one_silence; events = no_events }

abbrev pub morning : World Stores
morning = record {
  heap = empty_heap;
  supply = record { clock = λ n. 100 + n; uuid = λ n. "a-2" };
  ticks = 0;
  drawn = 0;
  sent = [];
  store = stores;
}

abbrev pub input : ProcessAlertInput
input = record {
  fingerprint = "fp-2";
  name = "HighLoad";
  instance_name = "host-2";
  target = "node";
  summary = "load";
  description = "";
  severity = critical;
  status = "firing";
  labels = ("team", "infra") ∷ [];
  annotations = [];
  fired_at = 99;
}

abbrev pub slack_channel : Notifier
slack_channel = record {
  name = "slack";
  notify = λ sent a. ok "msg-1";
  update_message = λ sent id a. ok tt;
}

abbrev pub broken_pager : Notifier
broken_pager = record {
  name = "pagerduty";
  notify = λ sent a. err (other "timeout");
  update_message = λ sent id a. err (other "timeout");
}

abbrev pub use_case : ProcessAlertUseCase Stores
use_case = record {
  alert_repo = memory_alert_store;
  silence_repo = memory_silence_store;
  notifiers = broken_pager ∷ slack_channel ∷ [];
  subscriber_matcher = none;
  slack_notifier = none;
  pagerduty_notifier = none;
}

abbrev pub ack : AckEvent
ack = record {
  id = "e-1";
  alert_id = "a-1";
  source = slack;
  user_id = "U1";
  user_email = "kim@example.com";
  user_name = "kim";
  note = "";
  duration = none;
  created_at = 120;
}
