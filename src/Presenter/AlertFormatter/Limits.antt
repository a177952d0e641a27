-- ===== src/Presenter/AlertFormatter/Limits.antt =====
-- How many blocks a message of internal/adapter/presenter/slack_alert_formatter.go has, and which alerts
-- it shows.
use alert_bridge.Base.{
  ℕ, zero, suc, ◌+◌, ◌-◌, ◌≤◌, String, ◌≡◌, refl, ap, ◌∙◌, true, false, ◌&&◌, List, [], ◌∷◌, ◌++◌,
  if◌then◌else◌, length, length-append, take, ltb, map, arith,
}
use alert_bridge.Base.Text.{itoa}
use alert_bridge.UseCase.Slack.Durations.{◌+++◌}
use alert_bridge.Entity.Alert.{Alert}
use alert_bridge.Presenter.Blocks.{
  Block, Calendar, header_block, section_block, context_block, action_block, divider,
}
use alert_bridge.Presenter.AlertFormatter.{
  footer, list_blocks, alert_blocks, alert_text, format_alert, format_alert_status,
}

module _ {A : Type 0} (show : A → Block) (what : String) (total : ℕ) where
  -- The rounds left before the tenth each add two blocks at most, and the note one.
  length-list_blocks-le :
      (left i : ℕ) (xs : List A)
      → i + left ≡ 10
      → length (list_blocks show what total i xs) ≤ left + left + 1
  unfolding list_blocks
  length-list_blocks-le left i [] e = omega arith
  length-list_blocks-le zero i (x ∷ xs) e = ground arith
  length-list_blocks-le (suc left) i (x ∷ xs) e =
      ground (arith, length-list_blocks-le left (suc i) xs (omega arith))

abbrev pub without_dividers : List Block → List Block
without_dividers [] = []
without_dividers (divider ∷ bs) = without_dividers bs
without_dividers (header_block t ∷ bs) = header_block t ∷ without_dividers bs
without_dividers (section_block t ∷ bs) = section_block t ∷ without_dividers bs
without_dividers (context_block ts ∷ bs) = context_block ts ∷ without_dividers bs
without_dividers (action_block id es ∷ bs) = action_block id es ∷ without_dividers bs

module _ {A : Type 0} (show : A → String) (what : String) (total : ℕ) where
  abbrev shown : A → Block
  shown x = section_block (show x)

  divided :
      (i : ℕ) (bs : List Block)
      → without_dividers (if ltb i (total - 1) && ltb i 9 then divider ∷ bs else bs)
        ≡ without_dividers bs
  divided i bs = ground arith

  abbrev note : Block
  note = section_block ("_Showing 10 of " +++ itoa total +++ " " +++ what +++ "_")

  -- The note stands for more than the alerts that are left.
  abbrev pub note_if : ℕ → ℕ → List Block
  note_if left n = if ltb left n then note ∷ [] else []

  note_if-suc : (left n : ℕ) → note_if (suc left) (suc n) ≡ note_if left n
  note_if-suc left n = ground arith

  list_blocks-shown :
      (left i : ℕ) (xs : List A)
      → i + left ≡ 10
      → without_dividers (list_blocks shown what total i xs)
        ≡ map shown (take left xs) ++ note_if left (length xs)
  unfolding list_blocks
  list_blocks-shown zero i [] e = refl
  list_blocks-shown (suc left) i [] e = ground arith
  list_blocks-shown zero i (x ∷ xs) e =
      let late : ltb i 10 ≡ false = ground arith in
      let more : ltb 0 (suc (length xs)) ≡ true = ground arith in rw (late, more) refl
  list_blocks-shown (suc left) i (x ∷ xs) e =
      let early : ltb i 10 ≡ true = ground arith in
      rw (early, note_if-suc left (length xs))
        (ap (λ bs. shown x ∷ bs)
          (divided i (list_blocks shown what total (suc i) xs)
            ∙ list_blocks-shown left (suc i) xs (omega arith)))

-- The status of one alert or more takes at most 25 blocks, however many alerts there are. Apart from the
-- dividers its alerts are the first ten, in their order, and a note with the number of all of them
-- follows exactly when there are more.
pub format_alert_status_lem :
    (cal : Calendar) (now : ℕ) (a : Alert) (rest : List Alert) (severity_filter : String)
    → (length (format_alert_status cal now (a ∷ rest) severity_filter) ≤ 25)
      × (without_dividers (alert_blocks now (a ∷ rest))
          ≡ map (format_alert now) (take 10 (a ∷ rest))
            ++ note_if (alert_text now) "alerts" (suc (length rest)) 10 (suc (length rest)))
unfolding format_alert_status format_alert
format_alert_status_lem cal now a rest severity_filter = (
  ground (
    arith,
    length-append (alert_blocks now (a ∷ rest)) (footer cal "Last updated: " now ∷ []),
    length-list_blocks-le (format_alert now) "alerts" (suc (length rest)) 10 0 (a ∷ rest)
        (omega arith),
  ),
  list_blocks-shown (alert_text now) "alerts" (suc (length rest)) 10 0 (a ∷ rest) (omega arith),
)
