-- ===== src/Adapter/SlackCommand.antt =====
-- internal/adapter/dto/slack_command_dto.go. A duration is a number of nanoseconds in 64 bits.
pub mod Periods
use Prim.Native.Char.{Char, code}
use alert_bridge.Base.{
  ℕ, ◌*◌, String, Bool, not, ◌&&◌, ◌||◌, Option, none, some, List, [], ◌∷◌, ◌==◌, is_set,
  if◌then◌else◌, ltb, eqb,
}
use alert_bridge.Base.Assoc.{Map, insert, get_or}
use alert_bridge.Base.Int.{ℤ, pos, is_positive, to_int64}
use alert_bridge.Base.Text.{to_lower, trim_space, fields, split_digits, atoi, cut}

pub data SilenceAction : Type 0 where
  create list delete open_modal from_modal : SilenceAction

pub record SilenceRequest : Type 0 where
  pub action : SilenceAction
  pub duration : ℤ
  pub reason : String
  pub silence_id : String
  pub matchers : Map String
  pub user_id : String
  pub user_name : String
  pub trigger_id : String

pub record SlackCommandDto : Type 0 where
  pub command : String
  pub text : String
  pub user_id : String
  pub user_name : String
  pub channel_id : String
  pub channel_name : String
  pub team_id : String
  pub response_url : String
  pub trigger_id : String

unfoldable pub parsed_args : SlackCommandDto → Map String
unfolding insert
parsed_args d = if is_set d.text then insert "severity" d.text [] else []

unfoldable pub severity_filter : SlackCommandDto → String
unfolding parsed_args get_or
severity_filter d = get_or "" "severity" (parsed_args d)

abbrev pub minute : ℕ
minute = 60_000_000_000

abbrev pub hour : ℕ
hour = 60 * minute

-- 'm', 'h', 'd' and 'w'; any other character stands for no time
unfoldable pub unit_length : Char → ℕ
unit_length c =
    if eqb (code c) 109
    then minute
    else if eqb (code c) 104
    then hour
    else if eqb (code c) 100
    then 24 * hour
    else if eqb (code c) 119
    then 7 * 24 * hour
    else 0

abbrev pub is_unit : Char → Bool
is_unit c = eqb (code c) 109 || eqb (code c) 104 || eqb (code c) 100 || eqb (code c) 119

abbrev unit_behind : String → String → Option (String × Char)
unit_behind digits (String.◌∷◌ c String.[]) =
    if is_set digits && is_unit c then some (digits, c) else none
unit_behind digits _ = none

-- periodRegex: digits, at least one, and a unit behind them
unfoldable pub find_period : String → Option (String × Char)
unfolding split_digits
find_period s = let (digits, rest) = split_digits s in unit_behind digits rest

-- time.Duration(value) * time.Minute and the like, in an int64
unfoldable pub to_duration : ℕ → Char → ℤ
unfolding to_int64 unit_length
to_duration value unit = to_int64 (value * unit_length unit)

abbrev pub duration_of : Option ℕ → Char → ℤ
duration_of none unit = pos 0
duration_of (some value) unit = if ltb 0 value then to_duration value unit else pos 0

abbrev matched_duration : Option (String × Char) → ℤ
matched_duration none = pos 0
matched_duration (some (digits, unit)) = duration_of (atoi digits) unit

-- The part of PeriodFilter behind the aliases.
unfoldable pub read_period : String → ℤ
unfolding find_period atoi to_duration
read_period s = matched_duration (find_period s)

unfoldable pub parse_duration : String → ℤ
unfolding to_lower read_period
parse_duration s = read_period (to_lower s)

unfoldable pub period_filter : SlackCommandDto → ℤ
unfolding to_lower trim_space read_period
period_filter d =
    let text = trim_space (to_lower d.text) in
    if text == ""
    then pos 0
    else if text == "today"
    then pos (24 * hour)
    else if (text == "week") || (text == "thisweek")
    then pos (7 * 24 * hour)
    else if text == "all"
    then pos 0
    else read_period text

abbrev pub default_request : SlackCommandDto → SilenceRequest
default_request d = record {
  action = list;
  duration = pos hour;
  reason = "";
  silence_id = "";
  matchers = [];
  user_id = d.user_id;
  user_name = d.user_name;
  trigger_id = d.trigger_id;
}

abbrev second_part : List String → String
second_part [] = ""
second_part (id ∷ more) = id

abbrev pub with_parts : List String → SilenceRequest → SilenceRequest
with_parts [] req = req
with_parts (part ∷ parts) req =
    let action = to_lower part in
    if action == "create"
    then record req { action = open_modal }
    else if action == "list"
    then record req { action = list }
    else if action == "delete"
    then record req { action = delete; silence_id = second_part parts }
    else if is_positive (parse_duration action)
    then record req { action = open_modal; duration = parse_duration action }
    else req

unfoldable pub parse_silence_request : SlackCommandDto → SilenceRequest
unfolding fields to_lower parse_duration is_positive
parse_silence_request d = with_parts (fields d.text) (default_request d)
