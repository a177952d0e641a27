-- ===== src/Entity/AckEvent.antt =====
-- internal/domain/entity/ack_event.go
use alert_bridge.Base.{ℕ, String, Bool, true, false, Option, none, some, is_set}
use alert_bridge.Base.Int.{ℤ, is_positive}

pub data AckSource : Type 0 where
  slack pagerduty api : AckSource

-- string(source)
abbrev pub source_text : AckSource → String
source_text slack = "slack"
source_text pagerduty = "pagerduty"
source_text api = "api"

pub record AckEvent : Type 0 where
  pub id : String
  pub alert_id : String
  pub source : AckSource
  pub user_id : String
  pub user_email : String
  pub user_name : String
  pub note : String
  pub duration : Option ℤ
  pub created_at : ℕ

unfoldable pub new_ack_event :
    String
    → ℕ
    → (alert_id : String) → AckSource
    → (user_id user_email user_name : String) → AckEvent
new_ack_event id now alert_id source user_id user_email user_name = record {
  id = id;
  alert_id = alert_id;
  source = source;
  user_id = user_id;
  user_email = user_email;
  user_name = user_name;
  note = "";
  duration = none;
  created_at = now;
}

unfoldable pub with_note : String → AckEvent → AckEvent
with_note note e = record e { note = note }

unfoldable pub with_duration : ℤ → AckEvent → AckEvent
with_duration d e = record e { duration = some d }

abbrev positive_duration : Option ℤ → Bool
positive_duration none = false
positive_duration (some d) = is_positive d

unfoldable pub has_duration : AckEvent → Bool
has_duration e = positive_duration e.duration

unfoldable pub has_note : AckEvent → Bool
has_note e = is_set e.note

abbrev from_slack : AckSource → Bool
from_slack slack = true
from_slack _ = false

abbrev from_pagerduty : AckSource → Bool
from_pagerduty pagerduty = true
from_pagerduty _ = false

unfoldable pub is_from_slack : AckEvent → Bool
is_from_slack e = from_slack e.source

unfoldable pub is_from_pagerduty : AckEvent → Bool
is_from_pagerduty e = from_pagerduty e.source
