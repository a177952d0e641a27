-- ===== src/UseCase/Slack/ManageSilence/Commands.antt =====
-- The silence command, from its text to what it does over the in-memory repositories.
use alert_bridge.Base.{
  String, ◌≡◌, ◌⊎◌, refl, ap, inl, inr, true, Bool-cases, Option-cases, some, List, [], ◌∷◌, ◌==◌,
  is_set,
}
use alert_bridge.Base.Assoc.{lookup, delete}
use alert_bridge.Base.Int.{is_positive}
use alert_bridge.Base.Text.{fields, to_lower}
use alert_bridge.Adapter.SlackCommand.{
  SilenceAction, SilenceRequest, SlackCommandDto, list, open_modal, parse_silence_request,
  parse_duration, default_request, with_parts,
}
use alert_bridge.Errors.{ok}
use alert_bridge.Entity.SilenceMark.{SilenceMark}
use alert_bridge.Memory.AlertRepository.{get_active_alerts}
use alert_bridge.Memory.SilenceRepository
use alert_bridge.Memory.SilenceRepository.{remove_silence}
use alert_bridge.UseCase.Notify.Sending.{Result-cases}
use alert_bridge.UseCase.MemoryStores.{Stores, memory_alert_store, memory_silence_store}
use alert_bridge.UseCase.Slack.ActiveLabels.{get_active_alert_labels, collect_labels, to_slices}
use alert_bridge.UseCase.Slack.ManageSilence.{
  ManageSilenceUseCase, SilenceModalClient, open_silence_modal, list_silences, delete_silence,
  execute,
}
use alert_bridge.UseCase.World.{World}

abbrev pub in_memory : SilenceModalClient → ManageSilenceUseCase Stores
in_memory client = record {
  silence_repo = memory_silence_store;
  alert_repo = memory_alert_store;
  slack_client = client;
}

-- What a request from a command can ask for.
abbrev IsCommand : SilenceRequest → Type 0
IsCommand req =
    (is_positive req.duration ≡ true)
    × ((req.action ≡ list) ⊎ ((req.action ≡ open_modal) ⊎ (req.action ≡ SilenceAction.delete)))

with_parts-IsCommand :
    (parts : List String) (req : SilenceRequest) → IsCommand req → IsCommand (with_parts parts req)
with_parts-IsCommand [] req h = h
with_parts-IsCommand (part ∷ parts) req h = elim (Bool-cases (to_lower part == "create")) [
  | inl e ↦ rw e (h.0, inr (inl refl))
  | inr e ↦ elim (Bool-cases (to_lower part == "list")) [
    | inl f ↦ rw (e, f) (h.0, inl refl)
    | inr f ↦ elim (Bool-cases (to_lower part == "delete")) [
      | inl g ↦ rw (e, f, g) (h.0, inr (inr refl))
      | inr g ↦ elim (Bool-cases (is_positive (parse_duration (to_lower part)))) [
        | inl k ↦ rw (e, f, g, k) (k, inr (inl refl))
        | inr k ↦ rw (e, f, g, k) h
      ]
    ]
  ]
]

parse_silence_request-IsCommand : (d : SlackCommandDto) → IsCommand (parse_silence_request d)
unfolding parse_silence_request
parse_silence_request-IsCommand d =
    with_parts-IsCommand (fields d.text) (default_request d) (refl, inl refl)

-- What a command can do to the silences.
abbrev pub OneFewer : String → World Stores → World Stores → Type 0
OneFewer id w w' =
    (w'.store.silences ≡ w.store.silences)
    ⊎ (w'.store.silences.silences ≡ delete id w.store.silences.silences)

open_silence_modal-store :
    (client : SilenceModalClient) (req : SilenceRequest) (w : World Stores)
    → (open_silence_modal (in_memory client) req w).1.store ≡ w.store
unfolding open_silence_modal get_active_alert_labels
open_silence_modal-store client req w = elim (Bool-cases (is_set req.trigger_id)) [
  | inl e ↦
      rw e
        (elim (Result-cases (
          client.open_modal w.sent req.trigger_id
            (to_slices (collect_labels (get_active_alerts "" w.store.alerts) [])))) [
              | inl (r, f) ↦ rw f refl
              | inr (x, f) ↦ rw f refl
            ])
  | inr e ↦ rw e refl
]

deleted :
    (id : String) (r : SilenceRepository.SilenceRepository) (s : SilenceMark)
    → lookup id r.silences ≡ some s
    → SilenceRepository.delete_silence id r ≡ ok (remove_silence id s r)
unfolding SilenceRepository.delete_silence
deleted id r s e = rw (e, SilenceRepository.delete_silence) refl

remove_silence-silences :
    (id : String) (s : SilenceMark) (r : SilenceRepository.SilenceRepository)
    → (remove_silence id s r).silences ≡ delete id r.silences
unfolding remove_silence
remove_silence-silences id s r = refl

delete_silence-OneFewer :
    (client : SilenceModalClient) (req : SilenceRequest) (w : World Stores)
    → OneFewer req.silence_id w (delete_silence (in_memory client) req w).1
unfolding delete_silence SilenceRepository.find_silence_by_id
delete_silence-OneFewer client req w = elim (Bool-cases (is_set req.silence_id)) [
  | inl e ↦ elim (Option-cases (lookup req.silence_id w.store.silences.silences)) [
    | inl n ↦ rw (e, n) (inl refl)
    | inr (s, f) ↦
        rw (e, f, deleted req.silence_id w.store.silences s f)
          (inr (remove_silence-silences req.silence_id s w.store.silences))
  ]
  | inr e ↦ rw e (inl refl)
]

execute-OneFewer :
    (client : SilenceModalClient) (req : SilenceRequest) (w : World Stores)
    → IsCommand req
    → OneFewer req.silence_id w (execute (in_memory client) req w).1
unfolding execute list_silences
execute-OneFewer client req w (_, inl e) = rw e (inl refl)
execute-OneFewer client req w (_, inr (inl e)) =
    rw e (inl (ap (λ (t : Stores). t.silences) (open_silence_modal-store client req w)))
execute-OneFewer client req w (_, inr (inr e)) = rw e (delete_silence-OneFewer client req w)

-- Over the in-memory repositories, whatever the text of a silence command is, and whatever Slack
-- answers: the command stores no silence and changes none. It leaves the silences as they are, or
-- takes out the one whose id the text names.
pub command-OneFewer :
    (client : SilenceModalClient) (d : SlackCommandDto) (w : World Stores)
    → OneFewer
        (parse_silence_request d).silence_id
        w
        (execute (in_memory client) (parse_silence_request d) w).1
command-OneFewer client d w =
    execute-OneFewer client (parse_silence_request d) w (parse_silence_request-IsCommand d)
