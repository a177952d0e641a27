-- ===== src/Presenter/Examples.antt =====
-- Tests and instances for the messages of Slack.
use Prim.Native.Char.{code}
use Prim.Native.String.{◌∷◌}
use alert_bridge.Base.{
  ℕ, zero, suc, String, ◌≡◌, refl, ap, true, List, eqb, if◌then◌else◌, ltb, count_if, arith,
}
use alert_bridge.Base.Int.{ℤ, pos, negsuc}
use alert_bridge.Base.Text.{itoa}
use alert_bridge.Errors.{Result, ok}
use alert_bridge.Entity.Alert.{Alert}
use alert_bridge.Samples.{disk_full}
use alert_bridge.Presenter.Blocks.{Calendar}
use alert_bridge.Presenter.Message.{format_duration, action_elements}
use alert_bridge.Presenter.Message.Buttons.{AllFor, action_elements-AllFor}
use alert_bridge.Presenter.AlertFormatter.{format_age}
use alert_bridge.Presenter.SummaryFormatter.{exchange, sort_instances_from, sort_instances}
use alert_bridge.Presenter.SummaryFormatter.Sorting.{IsDescending, sort_instances_lem}

ages :
    (format_age (pos 59_999_999_999) ≡ "59s")
    × (format_age (pos 90_000_000_000) ≡ "1m")
    × (format_age (pos 90_061_000_000_000) ≡ "1d 1h")
    × (format_duration (pos 3_600_000_000_000) ≡ "1 hour")
unfolding format_age format_duration itoa
ages = (refl, refl, refl, refl)

-- A way to write durations that is read back.
abbrev ticks : ℕ → String
ticks zero = ""
ticks (suc n) = "x" ∷ ticks n

abbrev tick_count : String → ℕ
tick_count Prim.Native.String.[] = 0
tick_count (c ∷ s) = suc (tick_count s)

tick_count-ticks : (n : ℕ) → tick_count (ticks n) ≡ n
tick_count-ticks zero = refl
tick_count-ticks (suc n) = ap suc (tick_count-ticks n)

abbrev show_ticks : ℤ → String
show_ticks (pos n) = "+" ∷ ticks n
show_ticks (negsuc n) = "-" ∷ ticks n

abbrev read_ticks : String → Result ℤ
read_ticks Prim.Native.String.[] = ok (pos 0)
read_ticks (c ∷ s) = if eqb (code c) 43 then ok (pos (tick_count s)) else ok (negsuc (tick_count s))

reads : (d : ℤ) → read_ticks (show_ticks d) ≡ ok d
reads (pos n) = rw (tick_count-ticks n) refl
reads (negsuc n) = rw (tick_count-ticks n) refl

abbrev quarter : List ℤ
quarter = List.◌∷◌ (pos 15) List.[]

action_elements-AllFor_example :
    AllFor read_ticks "a_1" quarter (action_elements show_ticks quarter "a_1" true true)
action_elements-AllFor_example =
    action_elements-AllFor read_ticks show_ticks reads "a_1" quarter true true (omega arith, tt)

abbrev pub calendar : Calendar
calendar = record { unix = λ t. pos t; fallback = λ t. "" }

abbrev many : List Alert
many = List.◌∷◌ disk_full (List.◌∷◌ disk_full List.[])

abbrev hosts : List (String × ℕ)
hosts = List.◌∷◌ ("host-1", 1) (List.◌∷◌ ("host-2", 4) (List.◌∷◌ ("host-3", 2) List.[]))

hosts_sorted :
    sort_instances hosts
    ≡ List.◌∷◌ ("host-2", 4) (List.◌∷◌ ("host-3", 2) (List.◌∷◌ ("host-1", 1) List.[]))
unfolding sort_instances sort_instances_from exchange
hosts_sorted = refl

sort_instances_lem_example :
    IsDescending (sort_instances hosts)
    × (count_if (λ h. ltb 1 h.1) (sort_instances hosts) ≡ count_if (λ h. ltb 1 h.1) hosts)
sort_instances_lem_example = sort_instances_lem hosts (λ h. ltb 1 h.1)
