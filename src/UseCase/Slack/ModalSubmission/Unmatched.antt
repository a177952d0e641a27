-- ===== src/UseCase/Slack/ModalSubmission/Unmatched.antt =====
-- A form that is sent off with no label, over the in-memory repositories.
use alert_bridge.Base.{
  ℕ, String, ◌≡◌, refl, ◌∙◌, inl, inr, true, false, Bool-cases, some, [], is_set, ◌==◌, ==-refl,
}
use alert_bridge.Base.Assoc.{lookup, lookup-insert}
use alert_bridge.Base.Int.{ℤ, is_positive, add_duration}
use alert_bridge.Errors.{Result, ok}
use alert_bridge.Entity.AckEvent.{slack}
use alert_bridge.Entity.Alert.{Alert}
use alert_bridge.Entity.SilenceMark.{SilenceMark, matches_alert, new_silence_mark, with_reason}
use alert_bridge.Entity.SilenceMark.Matching.{matches_alert-empty}
use alert_bridge.Memory.SilenceRepository.{save_silence}
use alert_bridge.UseCase.MemoryStores.{Stores, memory_silence_store}
use alert_bridge.UseCase.Slack.HandleInteraction.{SlackInteractionOutput}
use alert_bridge.UseCase.Slack.ModalSubmission.{
  InteractionCallback, read_matchers, read_reason, read_duration, handle_silence_modal_submission,
  handle_modal_submission,
}
use alert_bridge.UseCase.Slack.ManageSilence.{reasoned}
use alert_bridge.UseCase.World.{World}

-- The silence of a form before it is given a reason.
abbrev blank_mark : String → ℕ → ℤ → String → SilenceMark
blank_mark id at d name = record {
  id = id;
  alert_id = "";
  instance_name = "";
  fingerprint = "";
  labels = [];
  start_at = at;
  end_at = add_duration at d;
  created_by = name;
  created_by_email = "";
  reason = "";
  source = slack;
  created_at = at;
}

reasoned-unmatched :
    (now : ℕ) (a : Alert) (reason id : String) (at : ℕ) (d : ℤ) (name : String)
    → matches_alert now a (reasoned reason (blank_mark id at d name)) ≡ false
unfolding with_reason
reasoned-unmatched now a reason id at d name = elim (Bool-cases (is_set reason)) [
  | inl e ↦
      rw (e) (
        matches_alert-empty now a (with_reason reason (blank_mark id at d name)) refl refl refl
          refl)
  | inr e ↦ rw (e) (matches_alert-empty now a (blank_mark id at d name) refl refl refl refl)
]

-- Over the in-memory repositories, a form with a positive duration whose blocks give no label is
-- accepted: a silence is stored under the id that is returned, and it matches no alert at any time.
pub modal-unmatched :
    (parse_duration : String → Result ℤ) (payload : InteractionCallback) (d : ℤ) (w : World Stores)
    → (payload.callback_id == "silence_create_modal") ≡ true
    → parse_duration (read_duration payload.values) ≡ ok d
    → is_positive d ≡ true
    → read_matchers payload.values [] ≡ []
    → (out : SlackInteractionOutput) × (m : SilenceMark) × ((handle_modal_submission parse_duration
          memory_silence_store payload w).0
        ≡ ok out)
      × (lookup out.silence_id
            (handle_modal_submission parse_duration memory_silence_store payload
              w).1.store.silences.silences
          ≡ some m)
      × ((now : ℕ) (a : Alert) → matches_alert now a m ≡ false)
unfolding handle_modal_submission handle_silence_modal_submission new_silence_mark save_silence
modal-unmatched parse_duration payload d w c p positive none_given =
    let m =
      reasoned (read_reason payload.values)
        (blank_mark (w.supply.uuid w.drawn) (w.supply.clock w.ticks) d payload.user_name) in
    rw (c, p, positive, none_given)
      (
        _,
        m,
        refl,
        lookup-insert m.id m.id m w.store.silences.silences ∙ rw (==-refl m.id) refl,
        λ now a.
            reasoned-unmatched now a (read_reason payload.values) (w.supply.uuid w.drawn)
              (w.supply.clock w.ticks) d payload.user_name,
      )
