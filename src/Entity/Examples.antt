-- ===== src/Entity/Examples.antt =====
-- Tests and instances for the entities.
use alert_bridge.Base.{◌<◌, ◌≡◌, ◌↔◌, true}
use alert_bridge.Entity.SilenceMark.{SilenceMark, matches_alert}
use alert_bridge.Entity.SilenceMark.Matching.{Targets, matches_alert_iff}
use alert_bridge.Samples.{disk_full, maintenance}

matches_alert_iff_example :
    (matches_alert 100 disk_full maintenance ≡ true)
    ↔ ((50 < 100) × (100 < 500) × Targets maintenance disk_full)
matches_alert_iff_example = matches_alert_iff 100 disk_full maintenance

abbrev longer : SilenceMark
longer = record maintenance { end_at = 560 }
