-- ===== src/UseCase/ProcessAlert/Silenced.antt =====
-- An alert that is silenced is stored and nobody is told, over the in-memory repositories.
use alert_bridge.Base.{
  suc, String, ◌≡◌, refl, sym, ◌∙◌, ◌≢◌, inl, inr, false, Option, none, some, List, [], ◌∷◌, ◌==◌,
  ◌<◌, In,
}
use alert_bridge.Base.Assoc.{lookup}
use alert_bridge.Entity.Alert.{Alert}
use alert_bridge.Entity.SilenceMark.{SilenceMark}
use alert_bridge.Entity.SilenceMark.Matching.{matches_alert_iff}
use alert_bridge.Memory.AlertRepository
use alert_bridge.Memory.SilenceRepository.Matches.{IsListed}
use alert_bridge.Memory.SilenceRepository.Search.{find_matching_alert_iff}
use alert_bridge.UseCase.AlertInput.{ProcessAlertInput}
use alert_bridge.UseCase.MemoryStores.{Stores}
use alert_bridge.UseCase.Notify.{ProcessAlertUseCase}
use alert_bridge.UseCase.Notify.Sending.{Result-cases}
use alert_bridge.UseCase.ProcessAlert.{
  find_firing_alert, build_alert, save_and_notify, fire_unless_firing, execute,
}
use alert_bridge.UseCase.ProcessAlert.Dedup.{in_memory, built-fingerprint}
use alert_bridge.UseCase.World.{World}

save_and_notify-silenced :
    (uc : ProcessAlertUseCase Stores) (a : Alert) (silences : List SilenceMark) (m : SilenceMark)
    (w : World Stores)
    → In m silences
    → (save_and_notify (in_memory uc) a silences w).1.sent ≡ w.sent
unfolding save_and_notify
save_and_notify-silenced uc a [] m w i = absurd i
save_and_notify-silenced uc a (s ∷ ss) m w i =
    elim (Result-cases (AlertRepository.save w.heap a w.store.alerts)) [
      | inl (r, e) ↦ rw (e) refl
      | inr (x, e) ↦ rw (e) refl
    ]

fire_unless_firing-silenced :
    (uc : ProcessAlertUseCase Stores) (input : ProcessAlertInput) (known : Option Alert)
    (id : String) (m : SilenceMark) (w : World Stores)
    → IsListed w.store.silences
    → lookup id w.store.silences.silences ≡ some m
    → m.fingerprint ≡ input.fingerprint
    → m.fingerprint ≢ ""
    → m.start_at < w.supply.clock (suc w.ticks)
    → w.supply.clock (suc w.ticks) < m.end_at
    → (fire_unless_firing (in_memory uc) input known w).1.sent ≡ w.sent
unfolding fire_unless_firing build_alert
fire_unless_firing-silenced uc input (some a) id m w v l f g begun lasts = refl
fire_unless_firing-silenced uc input none id m w v l f g begun lasts =
    save_and_notify-silenced uc _ _ m _ (
      (find_matching_alert_iff (w.supply.clock (suc w.ticks)) _ w.store.silences m v).1 (
        (id, l),
        (matches_alert_iff (w.supply.clock (suc w.ticks)) _ m).1
            (begun, lasts, inr (inl (g, f ∙ sym (built-fingerprint input _)))),
      ))

-- Over the in-memory repositories, with the indexes of the silences in order: if a stored silence
-- names the fingerprint of the input, which is not empty, and is active when the search reads the
-- clock, an input whose status is not "resolved" causes no call to any notifier.
pub execute-silenced :
    (uc : ProcessAlertUseCase Stores) (input : ProcessAlertInput) (id : String) (m : SilenceMark)
    (w : World Stores)
    → IsListed w.store.silences
    → lookup id w.store.silences.silences ≡ some m
    → m.fingerprint ≡ input.fingerprint
    → m.fingerprint ≢ ""
    → m.start_at < w.supply.clock (suc w.ticks)
    → w.supply.clock (suc w.ticks) < m.end_at
    → (input.status == "resolved") ≡ false
    → (execute (in_memory uc) input w).1.sent ≡ w.sent
unfolding execute
execute-silenced uc input id m w v l f g begun lasts r =
    let found = AlertRepository.find_by_fingerprint input.fingerprint w.store.alerts in
    rw (r)
      (fire_unless_firing-silenced uc input (find_firing_alert found) id m w v l f g begun lasts)
