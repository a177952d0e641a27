-- ===== src/UseCase/Slack/SummarizeAlerts/Top.antt =====
-- Who is listed as a top acknowledger.
use alert_bridge.Base.{
  ℕ, ◌+◌, ◌≤◌, ◌<◌, String, ◌≡◌, refl, sym, ap, ◌∙◌, ◌⊎◌, inl, inr, ◌&&◌, Bool-cases, Option-cases,
  some, List, [], ◌∷◌, ◌==◌, length, length-take-le, count_if, In, arith,
}
use alert_bridge.Base.Assoc.{
  Map, lookup, or_else, get_or, IsKeyed, insert-IsKeyed, lookup-In, In-lookup, get_or-present,
}
use alert_bridge.Entity.Alert.{Alert}
use alert_bridge.Entity.AlertSummary.{AlertSummary, UserAckCount, new_alert_summary, sort_counts}
use alert_bridge.UseCase.Slack.SummarizeAlerts.{
  increment, has_acker, add_alert, add_alerts, to_user_counts, build_top_acknowledgers, summarize,
}
use alert_bridge.UseCase.Slack.SummarizeAlerts.Counts.{add_alerts-users}
use alert_bridge.Entity.AlertSummary.Ranking.{
  AtLeast, IsDescending, sort_counts-IsDescending, sort_counts-In, In-sort_counts, take-In,
  take-IsDescending, In-take,
}

add_alerts-IsKeyed :
    (alerts : List Alert) (s : AlertSummary) (users : Map ℕ)
    → IsKeyed users
    → IsKeyed (add_alerts alerts (s, users)).1
unfolding add_alerts add_alert increment
add_alerts-IsKeyed [] s users h = h
add_alerts-IsKeyed (a ∷ alerts) s users h =
    add_alerts-IsKeyed alerts (add_alert a (s, users)).0 (add_alert a (s, users)).1
      (elim (Bool-cases (has_acker a)) [
        | inl e ↦ rw e (insert-IsKeyed a.acked_by (get_or 0 a.acked_by users + 1) users h)
        | inr e ↦ rw e h
      ])

abbrev pub count_of : String → ℕ → UserAckCount
count_of user n = record { user_name = user; user_email = ""; count = n }

to_user_counts-In :
    (x : UserAckCount) (m : Map ℕ) → In x (to_user_counts m) → In (x.user_name, x.count) m
unfolding to_user_counts
to_user_counts-In x [] i = i
to_user_counts-In x ((user, n) ∷ m) (inl e) = inl (rw e refl)
to_user_counts-In x ((user, n) ∷ m) (inr q) = inr (to_user_counts-In x m q)

In-to_user_counts :
    (user : String) (n : ℕ) (m : Map ℕ) → In (user, n) m → In (count_of user n) (to_user_counts m)
unfolding to_user_counts
In-to_user_counts user n [] i = i
In-to_user_counts user n ((u, k) ∷ m) (inl e) = inl (ap (λ p. count_of p.0 p.1) e)
In-to_user_counts user n ((u, k) ∷ m) (inr q) = inr (In-to_user_counts user n m q)

-- The acknowledged alerts whose acknowledgement names the user.
abbrev pub acks : String → List Alert → ℕ
acks user alerts = count_if (λ a. has_acker a && (a.acked_by == user)) alerts

module _ (alerts : List Alert) where
  abbrev start : AlertSummary
  start = record new_alert_summary { total_alerts = length alerts }

  abbrev users : Map ℕ
  users = (add_alerts alerts (start, [])).1

  users_lem : (user : String) → get_or 0 user users ≡ acks user alerts
  unfolding get_or lookup
  users_lem user = omega (arith, add_alerts-users user alerts start [])

  users-IsKeyed : IsKeyed users
  users-IsKeyed = add_alerts-IsKeyed alerts start [] tt

  counted_right :
      (c : UserAckCount)
      → In c (sort_counts (to_user_counts users))
      → c.count ≡ acks c.user_name alerts
  counted_right c i =
      sym (
        get_or-present 0 c.user_name c.count users (
          lookup-In c.user_name c.count users users-IsKeyed
            (to_user_counts-In c users (sort_counts-In c (to_user_counts users) i))))
      ∙ users_lem c.user_name

  everyone :
      (user : String)
      → 0 < acks user alerts
      → In (count_of user (acks user alerts)) (sort_counts (to_user_counts users))
  unfolding get_or
  everyone user p = elim (Option-cases (lookup user users)) [
    | inl e ↦ absurd (omega (arith, users_lem user, ap (λ o. or_else o 0) e))
    | inr (n, e) ↦ In-sort_counts (count_of user (acks user alerts)) (to_user_counts users) (
        In-to_user_counts user (acks user alerts) users (
          In-lookup user (acks user alerts) users
            (e ∙ ap some (sym (get_or-present 0 user n users e) ∙ users_lem user))))
  ]

  -- The top acknowledgers of a summary are at most five, with no count followed by a larger one, and
  -- each has the number of the alerts that are acknowledged in that user's name. A user who has
  -- acknowledged some alert is listed, unless five are and none of them has fewer.
  pub summarize-top_acknowledgers :
      (length (summarize alerts).top_acknowledgers ≤ 5)
      × IsDescending (summarize alerts).top_acknowledgers
      × ((c : UserAckCount)
          → In c (summarize alerts).top_acknowledgers
          → c.count ≡ acks c.user_name alerts)
      × ((user : String)
          → 0 < acks user alerts
          → In (count_of user (acks user alerts)) (summarize alerts).top_acknowledgers
            ⊎ ((length (summarize alerts).top_acknowledgers ≡ 5)
                × AtLeast (acks user alerts) (summarize alerts).top_acknowledgers))
  unfolding summarize build_top_acknowledgers
  summarize-top_acknowledgers =
      let cs = sort_counts (to_user_counts users) in
      let sorted = sort_counts-IsDescending (to_user_counts users) in
      (
        length-take-le 5 cs,
        take-IsDescending 5 cs sorted,
        λ c i. counted_right c (take-In 5 c cs i),
        λ user p. In-take 5 (count_of user (acks user alerts)) cs sorted (everyone user p),
      )
