-- ===== src/Service/Examples.antt =====
-- Tests and instances for the subscriber matcher.
use alert_bridge.Base.{◌↔◌, none, [], ◌∷◌, In}
use alert_bridge.Service.SubscriberMatcher.{SubscriberConfig, MatchedSubscriber, match_alert}
use alert_bridge.Service.SubscriberMatcher.Matching.{Matches, match_alert_iff}
use alert_bridge.Samples.{disk_full}

abbrev kim : SubscriberConfig
kim = record {
  name = "kim";
  slack_user_id = "U1";
  pagerduty_user_id = "P1";
  pagerduty_routing_key = "";
  labels = ("team", "infra") ∷ [];
  enabled = none;
}

abbrev lee : SubscriberConfig
lee = record kim { name = "lee"; slack_user_id = "U2"; labels = ("team", "web") ∷ [] }

abbrev kim_matched : MatchedSubscriber
kim_matched = record { subscriber = kim; match_count = 1 }

match_alert_iff_example :
    In kim_matched (match_alert (lee ∷ kim ∷ []) disk_full)
    ↔ (In kim (lee ∷ kim ∷ []) × Matches disk_full kim_matched)
match_alert_iff_example = match_alert_iff (lee ∷ kim ∷ []) disk_full kim_matched
