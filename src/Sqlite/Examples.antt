-- ===== src/Sqlite/Examples.antt =====
-- Tests and instances for the SQLite repositories.
use alert_bridge.Base.{ap, inl, inr, ◌≡◌, ◌&&◌, List, [], ◌∷◌, filter, leb, arith}
use alert_bridge.Base.Heap.{Heap}
use alert_bridge.Entity.SilenceMark.{matches_alert}
use alert_bridge.Sql.Json.{plain_json}
use alert_bridge.Sql.Tables.{map_option, row_of}
use alert_bridge.Sqlite.AlertRepository.{
  row_id, AlertRow, to_row, save, update, delete_alert, find_by_id,
}
use alert_bridge.Sqlite.AlertRepository.Contents.{
  content, contents, saved, updated, deleted, map_result,
}
use alert_bridge.Sqlite.AlertRepository.Refinement.{by_value, repository-refines}
use alert_bridge.Sqlite.SilenceRepository.{
  SilenceRow, to_silence_row, find_matching_alert, scan_silences,
}
use alert_bridge.Sqlite.SilenceRepository.Matching.{find_matching_alert-eq-scan}
use alert_bridge.Sqlite.AckEventRepository.{AckRow, to_ack_row}
use alert_bridge.Sqlite.AckEventRepository.ForeignKey.{
  Database, HaveAlerts, record_event, drop_alert, perform_all, perform_all-HaveAlerts,
}
use alert_bridge.Samples.{disk_full, empty_heap, maintenance, ack}

abbrev posted : Heap
posted = record empty_heap { cells = λ p. ("slack", "C1:1.2") ∷ [] }

abbrev table : List (AlertRow plain_json.Text)
table = to_row plain_json empty_heap disk_full ∷ []

repository-refines_example :
    (map_result (contents plain_json) (save plain_json empty_heap disk_full table)
      ≡ saved "a-1" (content empty_heap disk_full) (contents plain_json table))
    × (map_result (contents plain_json) (update plain_json empty_heap disk_full table)
        ≡ updated "a-1" (content empty_heap disk_full) (contents plain_json table))
    × (map_result (contents plain_json) (delete_alert plain_json "a-1" table)
        ≡ deleted "a-1" (contents plain_json table))
    × (map_option
          (by_value plain_json (find_by_id plain_json "a-1" table empty_heap).1)
          (find_by_id plain_json "a-1" table empty_heap).0
        ≡ contents plain_json table "a-1")
repository-refines_example = repository-refines plain_json empty_heap disk_full "a-1" table

abbrev silences : List (SilenceRow plain_json.Text)
silences = to_silence_row plain_json maintenance ∷ []

find_matching_alert-eq-scan_example :
    find_matching_alert plain_json 100 101 disk_full silences
    ≡ filter
        (λ s. leb s.start_at 100 && matches_alert 101 disk_full s)
        (scan_silences plain_json silences)
find_matching_alert-eq-scan_example =
    find_matching_alert-eq-scan plain_json 100 101 disk_full silences (omega arith)

abbrev recorded : Database plain_json
recorded = record { alerts = table; events = to_ack_row ack ∷ [] }

recorded-HaveAlerts : HaveAlerts plain_json recorded
unfolding row_of to_row to_ack_row
recorded-HaveAlerts r (inl e) =
    (to_row plain_json empty_heap disk_full, ap (λ (x : AckRow). row_of row_id x.alert_id table) e)
recorded-HaveAlerts r (inr z) = absurd z

perform_all-HaveAlerts_example :
    HaveAlerts plain_json (
      perform_all plain_json (record_event ack ∷ drop_alert "a-1" ∷ record_event ack ∷ []) recorded)
perform_all-HaveAlerts_example =
    perform_all-HaveAlerts plain_json (record_event ack ∷ drop_alert "a-1" ∷ record_event ack ∷ [])
      recorded recorded-HaveAlerts
