-- ===== src/UseCase/ProcessAlert.antt =====
-- internal/usecase/alert/process_alert.go: Execute.
pub mod Dedup
pub mod Silenced
use alert_bridge.Base.{ℕ, String, true, Option, none, some, List, [], ◌∷◌, ◌==◌, if◌then◌else◌}
use alert_bridge.Base.Assoc.{Map}
use alert_bridge.Errors.{Result, ok, err}
use alert_bridge.Entity.Alert.{Alert, new_alert, resolve, is_firing, add_label, add_annotation}
use alert_bridge.Entity.SilenceMark.{SilenceMark}
use alert_bridge.UseCase.AlertInput.{ProcessAlertInput, ProcessAlertOutput, empty_output}
use alert_bridge.UseCase.Notify.{ProcessAlertUseCase, send_notifications, update_all}
use alert_bridge.UseCase.World.{Exec, pure, wrapping, attempt, now, fresh_id, ◌>>=◌, ◌>>◌}

unfoldable pub find_firing_alert : List Alert → Option Alert
unfolding is_firing
find_firing_alert [] = none
find_firing_alert (a ∷ alerts) = if is_firing a then some a else find_firing_alert alerts

-- for k, v := range labels { alert.AddLabel(k, v) }
unfoldable pub add_labels : Map String → Alert → Alert
unfolding add_label
add_labels [] a = a
add_labels ((k, v) ∷ m) a = add_labels m (add_label k v a)

unfoldable pub add_annotations : Map String → Alert → Alert
unfolding add_annotation
add_annotations [] a = a
add_annotations ((k, v) ∷ m) a = add_annotations m (add_annotation k v a)

-- A failed search counts as no silence.
abbrev found_silences : Result (List SilenceMark) → List SilenceMark
found_silences (ok silences) = silences
found_silences (err e) = []

module _ {S : Type 0} where
  -- status "resolved"
  resolve_firing : ProcessAlertUseCase S → Option Alert → Exec S ProcessAlertOutput
  unfolding resolve update_all
  resolve_firing uc none = pure empty_output
  resolve_firing uc (some a) = do
    at ← now
    wrapping "updating resolved alert" (uc.alert_repo.update (resolve at a))
    update_all uc.notifiers (resolve at a) (record empty_output { alert_id = a.id })

  abbrev allocate : ProcessAlertInput → ℕ → String → Exec S Alert
  allocate input at id w =
      let (a, h) =
        new_alert id at input.fingerprint input.name input.instance_name input.target input.summary
          input.severity w.heap in
      let described = record a { description = input.description; fired_at = input.fired_at } in
      (
        ok (add_annotations input.annotations (add_labels input.labels described)),
        record w { heap = h },
      )

  -- NewAlert and the assignments after it
  unfoldable pub build_alert : ProcessAlertInput → Exec S Alert
  unfolding new_alert add_labels add_annotations
  build_alert input = do at ← now; id ← fresh_id; allocate input at id

  save_and_notify : ProcessAlertUseCase S → Alert → List SilenceMark → Exec S ProcessAlertOutput
  unfolding send_notifications
  save_and_notify uc a [] = do
    wrapping "saving alert" (uc.alert_repo.save a)
    send_notifications uc a (record empty_output { alert_id = a.id; is_new = true })
  save_and_notify uc a (s ∷ ss) = do
    wrapping "saving silenced alert" (uc.alert_repo.save a)
    pure (record empty_output { alert_id = a.id; is_new = true; is_silenced = true })

  -- status "firing", and any other
  fire_unless_firing :
      ProcessAlertUseCase S → ProcessAlertInput → Option Alert → Exec S ProcessAlertOutput
  unfolding build_alert save_and_notify
  fire_unless_firing uc input (some a) = pure (record empty_output { alert_id = a.id })
  fire_unless_firing uc input none = do
    a ← build_alert input
    r ← attempt (uc.silence_repo.find_matching_alert a)
    save_and_notify uc a (found_silences r)

  unfoldable pub execute : ProcessAlertUseCase S → ProcessAlertInput → Exec S ProcessAlertOutput
  unfolding find_firing_alert resolve_firing fire_unless_firing
  execute uc input = do
    existing ←
        wrapping "finding alert by fingerprint"
          (uc.alert_repo.find_by_fingerprint input.fingerprint)
    if input.status == "resolved"
        then resolve_firing uc (find_firing_alert existing)
        else fire_unless_firing uc input (find_firing_alert existing)
