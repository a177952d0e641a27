-- ===== src/Mysql/Examples.antt =====
-- Tests and instances for the MySQL repositories.
use alert_bridge.Base.{
  ◌≢◌, List, eq_iff, arith, ◌+◌, ◌≡◌, refl, sym, false, Option, some, none, [], ◌∷◌, eqb, ap,
}
use alert_bridge.Entity.Alert.{Alert}
use alert_bridge.Errors.{ok}
use alert_bridge.Sql.Json.{plain_json}
use alert_bridge.Sql.Tables.{row_of}
use alert_bridge.Mysql.AlertRepository.{AlertRow, row_id, to_row, update}
use alert_bridge.Mysql.AlertRepository.Versions.{IsMiss, update-detects}
use alert_bridge.Mysql.AlertRepository.LostUpdates.{alone, stale_update_wins}
use alert_bridge.Entity.SilenceMark.{SilenceMark}
use alert_bridge.Mysql.SilenceRepository.{SilenceRow, SilenceTables, find_silence_by_id}
use alert_bridge.Mysql.SilenceRepository.Writes.{row_by, update_silence}
use alert_bridge.Mysql.SilenceRepository.RoundTrip.{kept, find-update_silence}
use alert_bridge.Base.Int.{pos}
use alert_bridge.Mysql.SilenceRepository.FromSlack.{IsRefused, saving_to_mysql, modal-IsRefused}
use alert_bridge.UseCase.Slack.ModalSubmission.{handle_modal_submission}
use alert_bridge.UseCase.Slack.Examples.{form}
use alert_bridge.UseCase.World.{World, SilenceStore}
use alert_bridge.Samples.{disk_full, empty_heap, maintenance}

abbrev row : AlertRow plain_json.Text
row = to_row plain_json (λ t. t) empty_heap disk_full

abbrev moved : AlertRow plain_json.Text
moved = record row { version = 2 }

is_moved : (q : AlertRow plain_json.Text) → some moved ≡ some q → eqb q.version 1 ≡ false
unfolding to_row
is_moved q e =
    ap
      (λ (o : Option (AlertRow plain_json.Text)). elim o [
        | none ↦ false
        | some r ↦ eqb r.version 1
      ])
      (sym e)

update-detects_example :
    IsMiss plain_json
      (λ t. t)
      "a-1"
      (moved ∷ [])
      (update plain_json (λ t. t) (λ t. moved ∷ []) (λ t. t) empty_heap disk_full (row ∷ []))
unfolding row_of to_row
update-detects_example =
    update-detects plain_json (λ t. t) (λ t. moved ∷ []) (λ t. t) empty_heap disk_full (row ∷ [])
      row refl ((λ e. refl), tt) is_moved

abbrev renamed : Alert
renamed = record disk_full { summary = "disk nearly full" }

stale_update_wins_example :
    ((alone plain_json (λ t. t) empty_heap disk_full (row ∷ [])).0 ≡ ok tt)
    × ((alone plain_json
          (λ t. t)
          empty_heap
          renamed
          (alone plain_json (λ t. t) empty_heap disk_full (row ∷ [])).1).0
        ≡ ok tt)
    × (row_of row_id "a-1"
          (alone plain_json
            (λ t. t)
            empty_heap
            renamed
            (alone plain_json (λ t. t) empty_heap disk_full (row ∷ [])).1).1
        ≡ some (record (to_row plain_json (λ t. t) empty_heap renamed) {
          id = "a-1";
          version = 1 + 1 + 1;
          created_at = 90;
        }))
unfolding row_of to_row
stale_update_wins_example =
    stale_update_wins plain_json (λ t. t) empty_heap disk_full renamed (row ∷ []) row refl
      ((λ e. refl), tt) refl

abbrev silence_row : SilenceRow plain_json.Text
silence_row =
    row_by plain_json (λ t. t) maintenance maintenance.created_by maintenance.created_by_email

abbrev longer : SilenceMark
longer = record maintenance { end_at = 900 }

abbrev caught_up : SilenceTables plain_json.Text
caught_up = record {
  primary = (update_silence plain_json (λ t. t) (λ q. q) (λ q. q) longer (silence_row ∷ [])).1;
  replica = (update_silence plain_json (λ t. t) (λ q. q) (λ q. q) longer (silence_row ∷ [])).1;
}

by_is_set : longer.created_by ≢ ""
by_is_set e = ground (arith, eq_iff longer.created_by "")

email_is_set : longer.created_by_email ≢ ""
email_is_set e = ground (arith, eq_iff longer.created_by_email "")

longer_is_read :
    ((update_silence plain_json (λ t. t) (λ q. q) (λ q. q) longer (silence_row ∷ [])).0 ≡ ok tt)
    × (find_silence_by_id plain_json "s-1" caught_up
        ≡ ok (some (kept plain_json (λ t. t) longer silence_row)))
unfolding row_of
longer_is_read =
    find-update_silence plain_json (λ t. t) longer (silence_row ∷ []) silence_row ((λ e. refl), tt)
      refl caught_up by_is_set email_is_set refl

abbrev silence_world : World (List (SilenceRow plain_json.Text))
silence_world = record {
  heap = empty_heap;
  supply = record { clock = λ n. 100; uuid = λ n. "u-1" };
  ticks = 0;
  drawn = 0;
  sent = [];
  store = silence_row ∷ [];
}

abbrev no_silences : SilenceStore (List (SilenceRow plain_json.Text))
no_silences = record {
  save_silence = λ s w. (ok tt, w);
  find_matching_alert = λ a w. (ok [], w);
  find_silence_by_id = λ id w. (ok none, w);
  find_active_silences = λ w. (ok [], w);
  delete_silence = λ id w. (ok tt, w);
}

modal-IsRefused_example :
    IsRefused plain_json
      (λ t. t)
      silence_world
      (handle_modal_submission
        (λ text. ok (pos 3600))
        (saving_to_mysql plain_json (λ t. t) no_silences)
        form
        silence_world)
modal-IsRefused_example =
    modal-IsRefused plain_json (λ t. t) (λ text. ok (pos 3600)) no_silences form silence_world
