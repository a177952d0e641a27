-- ===== src/UseCase/Slack/Durations.antt =====
-- formatDuration of internal/usecase/slack/handle_interaction.go. The floating-point quotients that it
-- cuts off to an int are taken as exact.
use alert_bridge.Base.{ℕ, suc, ◌/◌, ◌*◌, String, eqb, if◌then◌else◌, ltb}
use alert_bridge.Base.Int.{ℤ, pos, negsuc}
use alert_bridge.Base.Text.{itoa}
use alert_bridge.Adapter.SlackCommand.{minute, hour}

infixr 65 ◌+++◌
abbrev pub ◌+++◌ : String → String → String
s +++ t = Prim.Native.String.◌++◌ s t

abbrev plural : ℕ → String → String → String
plural n one many = if eqb n 1 then one else itoa n +++ many

abbrev minus : ℕ → String → String
minus n s = if ltb 0 n then "-" +++ s else s

unfoldable pub format_duration : ℤ → String
unfolding itoa
format_duration (negsuc n) = minus (suc n / minute) (itoa (suc n / minute)) +++ " minutes"
format_duration (pos n) =
    if ltb n hour
    then itoa (n / minute) +++ " minutes"
    else if ltb n (24 * hour)
    then plural (n / hour) "1 hour" " hours"
    else plural (n / (24 * hour)) "1 day" " days"
