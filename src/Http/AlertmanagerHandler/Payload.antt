-- ===== src/Http/AlertmanagerHandler/Payload.antt =====
-- What a payload of several alerts leaves in the in-memory repositories, and behind the
-- authentication of internal/adapter/handler/middleware/alertmanager_auth.go.
use alert_bridge.Base.{
  suc, ◌+◌, String, ◌≡◌, inl, inr, Bool-cases, Option, none, some, List, [], ◌∷◌, ◌==◌, length,
  arith,
}
use alert_bridge.Errors.{Result, ok, err}
use alert_bridge.Memory.AlertRepository.Firing.{IsDeduplicated}
use alert_bridge.UseCase.AlertInput.{AlertmanagerAlert, to_process_alert_input}
use alert_bridge.UseCase.MemoryStores.{Stores}
use alert_bridge.UseCase.Notify.{ProcessAlertUseCase}
use alert_bridge.UseCase.ProcessAlert.{execute}
use alert_bridge.UseCase.ProcessAlert.Dedup.{in_memory, execute-dedup}
use alert_bridge.UseCase.World.{World}
use alert_bridge.Http.Request.{Request}
use alert_bridge.Http.AlertmanagerHandler.{
  AlertmanagerWebhook, Counts, counted, process_alerts, answered, serve_alertmanager,
}

counted-total :
    {A : Type 0} (r : Result A) (n : Counts)
    → (counted r n).processed + (counted r n).failed ≡ suc (n.processed + n.failed)
counted-total (ok a) n = omega arith
counted-total (err e) n = omega arith

-- Every alert of a payload is counted once, as processed or as failed, whatever becomes of the others.
pub process_alerts-counts :
    {S : Type 0} (uc : ProcessAlertUseCase S) (alerts : List AlertmanagerAlert) (n : Counts)
    (w : World S)
    → (process_alerts uc alerts n w).0.processed + (process_alerts uc alerts n w).0.failed
      ≡ n.processed + n.failed + length alerts
unfolding process_alerts
process_alerts-counts uc [] n w = omega arith
process_alerts-counts uc (a ∷ alerts) n w =
    let r = execute uc (to_process_alert_input a) w in
    omega (arith, process_alerts-counts uc alerts (counted r.0 n) r.1, counted-total r.0 n)

module _ (uc : ProcessAlertUseCase Stores) where
  process_alerts-dedup :
      (alerts : List AlertmanagerAlert) (n : Counts) (w : World Stores)
      → IsDeduplicated w.store.alerts
      → IsDeduplicated (process_alerts (in_memory uc) alerts n w).1.store.alerts
  unfolding process_alerts
  process_alerts-dedup [] n w d = d
  process_alerts-dedup (a ∷ alerts) n w d =
      let r = execute (in_memory uc) (to_process_alert_input a) w in
      process_alerts-dedup alerts (counted r.0 n) r.1
        (execute-dedup uc (to_process_alert_input a) w d)

  answered-dedup :
      (p : Option AlertmanagerWebhook) (w : World Stores)
      → IsDeduplicated w.store.alerts
      → IsDeduplicated (answered (in_memory uc) p w).1.store.alerts
  answered-dedup none w d = d
  answered-dedup (some payload) w d = process_alerts-dedup payload.alerts _ w d

  -- Whatever a request to the Alertmanager webhook says, over the in-memory repositories: once it is
  -- answered there is at most one firing alert for each fingerprint, if there was before.
  pub serve_alertmanager-dedup :
      (decode : Option String → Option AlertmanagerWebhook) (r : Request) (w : World Stores)
      → IsDeduplicated w.store.alerts
      → IsDeduplicated (serve_alertmanager (in_memory uc) decode r w).1.store.alerts
  unfolding serve_alertmanager
  serve_alertmanager-dedup decode r w d = elim (Bool-cases (r.method == "POST")) [
    | inl e ↦ rw (e) (answered-dedup (decode r.body) w d)
    | inr e ↦ rw (e) d
  ]
