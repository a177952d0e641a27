-- ===== src/UseCase/Slack/HandleInteraction/Silenced.antt =====
-- The silence button, over the in-memory repositories: what it stores, and what that does to later
-- alerts.
use alert_bridge.Base.{
  ℕ, suc, ◌<◌, String, ◌≡◌, ◌≢◌, refl, sym, ap, ◌∙◌, inl, inr, true, false, some, List, [], is_set,
  if◌then◌else◌, ◌==◌, ==-refl,
}
use mathlib.Core.Path.{subst}
use alert_bridge.Base.Assoc.{lookup, lookup-insert}
use alert_bridge.Base.Int.{ℤ, is_positive, add_duration}
use alert_bridge.Errors.{Result, ok}
use alert_bridge.Entity.AckEvent.{slack}
use alert_bridge.Entity.Alert.{Alert}
use alert_bridge.Entity.SilenceMark.{SilenceMark}
use alert_bridge.Memory.AlertRepository
use alert_bridge.Memory.AlertRepository.Fingerprints.{IsIndexed}
use alert_bridge.Memory.SilenceRepository.{SilenceRepository, save_silence}
use alert_bridge.Memory.SilenceRepository.Matches.{IsListed}
use alert_bridge.Memory.SilenceRepository.Listing.{save_silence-IsListed}
use alert_bridge.UseCase.AlertInput.{ProcessAlertInput}
use alert_bridge.UseCase.MemoryStores.{Stores, memory_alert_store, memory_silence_store}
use alert_bridge.UseCase.Notify.{ProcessAlertUseCase}
use alert_bridge.UseCase.Notify.Sending.{Result-cases}
use alert_bridge.UseCase.ProcessAlert
use alert_bridge.UseCase.ProcessAlert.Dedup
use alert_bridge.UseCase.ProcessAlert.Silenced.{execute-silenced}
use alert_bridge.UseCase.Slack.HandleInteraction.{
  SlackInteractionInput, SlackInteractionOutput, SlackClient, HandleInteractionUseCase, email_or_id,
  parse_action_id, ack_input, user_email, make_silence, acknowledge_and_tell, handle_silence,
  silenced_output, execute,
}
use alert_bridge.UseCase.Slack.Durations.{◌+++◌}
use alert_bridge.UseCase.SyncAck
use alert_bridge.UseCase.SyncAck.{AckSyncer}
use alert_bridge.UseCase.SyncAck.Stored.{in_memory, execute-stored}
use alert_bridge.UseCase.World.{World}

abbrev pub interaction : List AckSyncer → SlackClient → HandleInteractionUseCase Stores
interaction ss client = record {
  alert_repo = memory_alert_store;
  silence_repo = memory_silence_store;
  sync_ack = in_memory ss;
  slack_client = client;
}

abbrev button_silence : String → ℕ → SlackInteractionInput → String → Alert → ℤ → SilenceMark
button_silence id at input email a d = record {
  id = id;
  alert_id = "";
  instance_name = "";
  fingerprint = a.fingerprint;
  labels = [];
  start_at = at;
  end_at = add_duration at d;
  created_by = input.user_name;
  created_by_email = email;
  reason = "Silenced from Slack by " +++ input.user_name;
  source = slack;
  created_at = at;
}

abbrev address : SlackClient → SlackInteractionInput → World Stores → String
address client input w =
    if is_set input.user_email
    then input.user_email
    else email_or_id (client.get_user_email w.sent input.user_id) input.user_id

module _ (parse_duration : String → Result ℤ) (format_time : ℕ → String) where
  -- Telling Slack changes no store, and the answer does not depend on it.
  acknowledge_and_tell-store :
      (uc : HandleInteractionUseCase Stores) (alert_id : String) (input : SlackInteractionInput)
      (email : String) (d : ℤ) (s : SilenceMark) (w : World Stores)
      → ((acknowledge_and_tell parse_duration format_time uc alert_id input email d s w).0
          ≡ ok (silenced_output d s))
        × ((acknowledge_and_tell parse_duration format_time uc alert_id input email d s w).1.store
            ≡ (SyncAck.execute uc.sync_ack (ack_input input alert_id email (some d)) w).1.store)
  unfolding acknowledge_and_tell
  acknowledge_and_tell-store uc alert_id input email d s w =
      elim (Result-cases
        (SyncAck.execute uc.sync_ack (ack_input input alert_id email (some d)) w).0) [
          | inl (r, e) ↦ rw (e) (refl, refl)
          | inr (x, e) ↦ rw (e) (refl, refl)
        ]

  -- The stored silence of a button that was pressed on the alert at a time.
  pub record IsSilenced (a : Alert) (at : ℕ) (d : ℤ) (out : SlackInteractionOutput)
      (m : SilenceMark) (t : Stores) : Type 0 where
    pub stored : lookup out.silence_id t.silences.silences ≡ some m
    pub same_fingerprint : m.fingerprint ≡ a.fingerprint
    pub begins : m.start_at ≡ at
    pub ends : m.end_at ≡ add_duration at d
    pub listed : IsListed t.silences

  -- Over the in-memory repositories, with their indexes in order: pressing the silence button of a
  -- stored alert, with a duration that is read and is positive, succeeds whatever Slack and the syncers
  -- answer. A silence for the fingerprint of the alert is stored under the id that is returned, from
  -- the reading of the clock for that duration, and the indexes of the silences stay in order.
  pub silence_button :
      (ss : List AckSyncer) (client : SlackClient) (input : SlackInteractionInput) (id : String)
      (a : Alert) (d : ℤ) (w : World Stores)
      → IsIndexed w.store.alerts
      → IsListed w.store.silences
      → parse_action_id input.action_id ≡ ("silence", id)
      → lookup id w.store.alerts.alerts ≡ some a
      → parse_duration input.value ≡ ok d
      → is_positive d ≡ true
      → (out : SlackInteractionOutput) × (m : SilenceMark) × ((execute parse_duration format_time
            (interaction ss client)
            input
            w).0
          ≡ ok out)
        × IsSilenced a
            (w.supply.clock w.ticks)
            d
            out
            m
            (execute parse_duration format_time (interaction ss client) input w).1.store
  unfolding execute handle_silence make_silence user_email AlertRepository.find_by_id save_silence
  silence_button ss client input id a d w v listed act l p positive =
      let email = address client input w in
      let at = w.supply.clock w.ticks in
      let m = button_silence (w.supply.uuid w.drawn) at input email a d in
      let w1 = record w {
        drawn = suc w.drawn;
        ticks = suc w.ticks;
        store = record w.store { silences = save_silence m w.store.silences };
      } in
      let tell = acknowledge_and_tell-store (interaction ss client) id input email d m w1 in
      let (_, _, _, _, _, _, _, kept) =
        execute-stored ss (ack_input input id email (some d)) a w1 v l in
      let same = ap (λ (t : Stores). t.silences) tell.1 ∙ kept in
      rw (act, p, l, positive)
        (
          silenced_output d m,
          m,
          tell.0,
          record {
            stored =
                ap (λ (r : SilenceRepository). lookup m.id r.silences) same
                ∙ lookup-insert m.id m.id m w.store.silences.silences
                ∙ rw (==-refl m.id) refl;
            same_fingerprint = refl;
            begins = refl;
            ends = refl;
            listed = subst IsListed (sym same) (save_silence-IsListed m w.store.silences listed);
          },
        )

  -- Over the in-memory repositories, with their indexes in order, the silence button of a stored alert
  -- is pressed, with a duration that is read and is positive. In any later world whose silences are
  -- those that this has left, an input with the fingerprint of the alert, which is not empty, and a
  -- status that is not "resolved" causes no call to any notifier, if the search reads the clock within
  -- the duration of the silence.
  pub silence_button-quiets :
      (ss : List AckSyncer) (client : SlackClient) (input : SlackInteractionInput) (id : String)
      (a : Alert) (d : ℤ) (w later : World Stores) (uc : ProcessAlertUseCase Stores)
      (fired : ProcessAlertInput)
      → IsIndexed w.store.alerts
      → IsListed w.store.silences
      → parse_action_id input.action_id ≡ ("silence", id)
      → lookup id w.store.alerts.alerts ≡ some a
      → parse_duration input.value ≡ ok d
      → is_positive d ≡ true
      → later.store.silences
        ≡ (execute parse_duration format_time (interaction ss client) input w).1.store.silences
      → fired.fingerprint ≡ a.fingerprint
      → a.fingerprint ≢ ""
      → (fired.status == "resolved") ≡ false
      → w.supply.clock w.ticks < later.supply.clock (suc later.ticks)
      → later.supply.clock (suc later.ticks) < add_duration (w.supply.clock w.ticks) d
      → (ProcessAlert.execute (Dedup.in_memory uc) fired later).1.sent ≡ later.sent
  silence_button-quiets ss client input id a d w later uc fired v listed act l p positive e f n r
        begun lasts =
      let (out, m, _, q) = silence_button ss client input id a d w v listed act l p positive in
      execute-silenced uc fired out.silence_id m later (subst IsListed (sym e) q.listed)
        (ap (λ (t : SilenceRepository). lookup out.silence_id t.silences) e ∙ q.stored)
        (q.same_fingerprint ∙ sym f) (λ z. n (sym q.same_fingerprint ∙ z))
        (subst (λ t. t < later.supply.clock (suc later.ticks)) (sym q.begins) begun)
        (subst (λ t. later.supply.clock (suc later.ticks) < t) (sym q.ends) lasts) r
