-- ===== src/Mysql/SilenceRepository/FromSlack.antt =====
-- The form of the /silence command, of internal/usecase/slack/handle_interaction.go, over the silences of MySQL.
use alert_bridge.Base.{ℕ, String, ◌≡◌, ◌⊎◌, ◌∙◌, ◌==◌, [], refl, inl, inr, Bool-cases, is_set, List}
use alert_bridge.Base.Assoc.{Map}
use alert_bridge.Base.Int.{ℤ, is_positive}
use alert_bridge.Errors.{Error, Result, ok, err}
use alert_bridge.Entity.AckEvent.{slack}
use alert_bridge.Entity.SilenceMark.{
  SilenceMark, new_silence_mark, with_reason, with_matchers, has_entries,
}
use alert_bridge.Sql.Json.{JsonCodec}
use alert_bridge.UseCase.Notify.Sending.{Result-cases}
use alert_bridge.UseCase.Slack.ManageSilence.{reasoned, matching}
use alert_bridge.UseCase.Slack.ModalSubmission.{
  InteractionCallback, read_matchers, read_reason, read_duration, duration_error,
  handle_silence_modal_submission, handle_modal_submission,
}
use alert_bridge.UseCase.World.{World, Exec, SilenceStore}
use alert_bridge.Mysql.SilenceRepository.{SilenceRow}
use alert_bridge.Mysql.SilenceRepository.Writes.{save_silence}
use alert_bridge.Mysql.SilenceRepository.RoundTrip.{save_silence-refused}

-- A new silence of the form has no email, or there is none.
made_or_not :
    (id : String) (at : ℕ) (d : ℤ) (user_name : String)
    → ((s : SilenceMark) × (new_silence_mark id at d user_name "" slack ≡ ok s)
        × (s.created_by_email ≡ ""))
      ⊎ ((e : Error) × (new_silence_mark id at d user_name "" slack ≡ err e))
unfolding new_silence_mark
made_or_not id at d user_name = elim (Bool-cases (is_positive d)) [
  | inl e ↦ rw e (inl (_, refl, refl))
  | inr e ↦ rw e (inr (_, refl))
]

reasoned-created_by_email :
    (reason : String) (s : SilenceMark) → (reasoned reason s).created_by_email ≡ s.created_by_email
unfolding with_reason
reasoned-created_by_email reason s = elim (Bool-cases (is_set reason)) [
  | inl e ↦ rw e refl
  | inr e ↦ rw e refl
]

matching-created_by_email :
    (matchers : Map String) (s : SilenceMark)
    → (matching matchers s).created_by_email ≡ s.created_by_email
unfolding with_matchers
matching-created_by_email matchers s = elim (Bool-cases (has_entries matchers)) [
  | inl e ↦ rw e refl
  | inr e ↦ rw e refl
]

module _ (c : JsonCodec) (keep : ℕ → ℕ) where
  abbrev Rows : Type 0
  Rows = List (SilenceRow c.Text)

  abbrev stored : Result Rows → Exec Rows (Unit {0})
  stored (ok rows) w = (ok tt, record w { store = rows })
  stored (err e) w = (err e, w)

  -- Any repository of silences, with Save of MySQL.
  abbrev pub saving_to_mysql : SilenceStore Rows → SilenceStore Rows
  saving_to_mysql repo = record repo {
    save_silence = λ s w. stored (save_silence c keep s w.store) w;
  }

  -- The call that failed, and the rows as they were.
  abbrev pub IsRefused : {A : Type 0} → World Rows → Result A × World Rows → Type 0
  IsRefused w run = ((e : Error) × (run.0 ≡ err e)) × (run.1.store ≡ w.store)

  module _ (parse_duration : String → Result ℤ) (repo : SilenceStore Rows)
      (payload : InteractionCallback) (w : World Rows) where
    submission-IsRefused :
        IsRefused w
          (handle_silence_modal_submission parse_duration (saving_to_mysql repo) payload w)
    unfolding handle_silence_modal_submission
    submission-IsRefused =
        elim (Result-cases (
          duration_error (read_duration payload.values)
            (parse_duration (read_duration payload.values)))) [
              | inl (d, f) ↦
                  (let reason = read_reason payload.values in
                    let matchers = read_matchers payload.values [] in
                    let made =
                      new_silence_mark (w.supply.uuid w.drawn) (w.supply.clock w.ticks) d
                        payload.user_name "" slack in
                    elim (made_or_not (w.supply.uuid w.drawn) (w.supply.clock w.ticks) d
                      payload.user_name) [
                        | inl (s, e, n) ↦
                            rw
                              (
                                f,
                                e,
                                save_silence-refused c keep (matching matchers (reasoned reason s))
                                    w.store
                                    (inr (
                                      matching-created_by_email matchers (reasoned reason s)
                                      ∙ reasoned-created_by_email reason s
                                      ∙ n)),
                              )
                              ((_, refl), refl)
                        | inr (x, e) ↦ rw (f, e) ((_, refl), refl)
                      ])
              | inr (x, f) ↦ rw f ((_, refl), refl)
            ]

    -- Over the silences of MySQL the form of the /silence command always fails, whatever it holds, and
    -- stores nothing: its silence has no email of a creator, the empty email is written as NULL, and
    -- the column is NOT NULL.
    pub modal-IsRefused :
        IsRefused w (handle_modal_submission parse_duration (saving_to_mysql repo) payload w)
    unfolding handle_modal_submission
    modal-IsRefused = elim (Bool-cases (payload.callback_id == "silence_create_modal")) [
      | inl e ↦ rw e submission-IsRefused
      | inr e ↦ rw e ((_, refl), refl)
    ]
