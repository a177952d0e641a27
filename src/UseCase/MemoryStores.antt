-- ===== src/UseCase/MemoryStores.antt =====
-- The in-memory repositories behind the interfaces of the use cases, as internal/app/storage.go
-- wires them for the storage type "memory".
use alert_bridge.Base.{ℕ}
use alert_bridge.Errors.{Result, ok, err}
use alert_bridge.Memory.AlertRepository
use alert_bridge.Memory.AlertRepository.{AlertRepository}
use alert_bridge.Memory.SilenceRepository
use alert_bridge.Memory.SilenceRepository.{SilenceRepository}
use alert_bridge.Memory.AckEventRepository
use alert_bridge.Memory.AckEventRepository.{AckEventRepository}
use alert_bridge.UseCase.World.{World, AlertStore, SilenceStore, AckEventStore}

pub record Stores : Type 0 where
  pub alerts : AlertRepository
  pub silences : SilenceRepository
  pub events : AckEventRepository

abbrev pub with_alerts : World Stores → AlertRepository → World Stores
with_alerts w r = record w { store = record w.store { alerts = r } }

-- A write that is refused leaves the repository as it was.
abbrev pub written : World Stores → Result AlertRepository → Result (Unit {0}) × World Stores
written w (ok r) = (ok tt, with_alerts w r)
written w (err e) = (err e, w)

abbrev pub memory_alert_store : AlertStore Stores
memory_alert_store = record {
  save = λ a w. written w (AlertRepository.save w.heap a w.store.alerts);
  update = λ a w. written w (AlertRepository.update w.heap a w.store.alerts);
  find_by_id = λ id w. (ok (AlertRepository.find_by_id id w.store.alerts), w);
  find_by_fingerprint = λ fp w. (ok (AlertRepository.find_by_fingerprint fp w.store.alerts), w);
  find_by_external_reference = λ system reference w.
      (ok (AlertRepository.find_by_external_reference system reference w.store.alerts), w);
  get_active_alerts =
      λ severity w. (ok (AlertRepository.get_active_alerts severity w.store.alerts), w);
}

abbrev pub silences_written :
    World Stores → Result SilenceRepository → Result (Unit {0}) × World Stores
silences_written w (ok r) = (ok tt, record w { store = record w.store { silences = r } })
silences_written w (err e) = (err e, w)

abbrev pub memory_silence_store : SilenceStore Stores
memory_silence_store = record {
  save_silence = λ s w. (
    ok tt,
    record w {
      store = record w.store { silences = SilenceRepository.save_silence s w.store.silences };
    },
  );
  find_matching_alert = λ a w. (
    ok (SilenceRepository.find_matching_alert (w.supply.clock w.ticks) a w.store.silences),
    record w { ticks = ℕ.suc w.ticks },
  );
  find_silence_by_id = λ id w. (ok (SilenceRepository.find_silence_by_id id w.store.silences), w);
  find_active_silences = λ w. (
    ok (SilenceRepository.find_active_silences (w.supply.clock w.ticks) w.store.silences),
    record w { ticks = ℕ.suc w.ticks },
  );
  delete_silence =
      λ id w. silences_written w (SilenceRepository.delete_silence id w.store.silences);
}

abbrev pub memory_ack_event_store : AckEventStore Stores
memory_ack_event_store = record {
  save_ack_event = λ e w. (
    ok tt,
    record w { store = record w.store { events = AckEventRepository.save_event e w.store.events } },
  );
}
