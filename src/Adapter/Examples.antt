-- ===== src/Adapter/Examples.antt =====
-- Tests and instances for the parsing of commands.
use alert_bridge.Base.{◌*◌, ◌<◌, ◌^◌, String, ◌≡◌, ◌≢◌, ◌↔◌, refl, arith, eq_iff}
use alert_bridge.Base.Int.{pos, negsuc}
use alert_bridge.Base.Text.{snoc, value_from}
use alert_bridge.Adapter.SlackCommand.{
  SlackCommandDto, period_filter, parse_duration, unit_length, hour,
}
use alert_bridge.Adapter.SlackCommand.Periods.{period_filter-exact_iff}

abbrev command : String → SlackCommandDto
command text = record {
  command = "/summary";
  text = text;
  user_id = "U1";
  user_name = "kim";
  channel_id = "C1";
  channel_name = "ops";
  team_id = "T1";
  response_url = "";
  trigger_id = "";
}

a_day :
    (period_filter (command " 24H ") ≡ pos (24 * hour))
    × (period_filter (command "today") ≡ pos (24 * hour))
unfolding period_filter
a_day = (refl, refl)

-- More weeks than fit are some other time, which can be negative or short.
wraps_around :
    (period_filter (command "15251w") ≡ negsuc 9222939273709551615)
    × (period_filter (command "30501w") ≡ pos 260726290448384)
unfolding period_filter
wraps_around = (refl, refl)

abbrev ninety : String
ninety = "90"

not_empty : ninety ≢ ""
not_empty e = ground (arith, eq_iff "90" "")

period_filter-exact_iff_example :
    ((period_filter (command "90m") ≡ pos (value_from 0 "90" * unit_length "m"))
      ↔ (value_from 0 "90" * unit_length "m" < 2 ^ 63))
    × (parse_duration "90m" ≡ period_filter (command "90m"))
unfolding snoc
period_filter-exact_iff_example =
    period_filter-exact_iff (command "90m") "90" "m" refl (refl, (refl, tt)) not_empty refl
