-- ===== src/Service/SubscriberMatcher/Order.antt =====
-- In which order matched subscribers come, and the ids that are taken from them.
use mathlib.Core.List.{Perm}
use mathlib.Core.List.Perm
use alert_bridge.Base.{
  ℕ, ◌≤◌, String, ◌≡◌, inl, inr, false, not, ◌&&◌, List, [], ◌∷◌, arith, eq_iff, is_set, ltb,
  Bool-cases, contains, map,
}
use alert_bridge.Entity.Alert.{Alert}
use alert_bridge.Service.SubscriberMatcher.{
  SubscriberConfig, MatchedSubscriber, match_all, match_alert, sort_matches, insert_match,
  distinct_ids, get_slack_user_ids,
}

-- No later subscriber has more matches than `n`.
abbrev pub AllAtMost : ℕ → List MatchedSubscriber → Type 0
AllAtMost n [] = Unit
AllAtMost n (m ∷ ms) = (m.match_count ≤ n) × AllAtMost n ms

abbrev pub IsDescending : List MatchedSubscriber → Type 0
IsDescending [] = Unit
IsDescending (m ∷ ms) = AllAtMost m.match_count ms × IsDescending ms

AllAtMost-mono : (n k : ℕ) (ms : List MatchedSubscriber) → n ≤ k → AllAtMost n ms → AllAtMost k ms
AllAtMost-mono n k [] h a = tt
AllAtMost-mono n k (m ∷ ms) h a = (omega arith, AllAtMost-mono n k ms h a.1)

insert-AllAtMost :
    (n : ℕ) (m : MatchedSubscriber) (ms : List MatchedSubscriber)
    → m.match_count ≤ n
    → AllAtMost n ms
    → AllAtMost n (insert_match m ms)
unfolding insert_match
insert-AllAtMost n m [] h a = (h, tt)
insert-AllAtMost n m (k ∷ ms) h a = ground (arith, insert-AllAtMost n m ms h a.1)

insert-IsDescending :
    (m : MatchedSubscriber) (ms : List MatchedSubscriber)
    → IsDescending ms
    → IsDescending (insert_match m ms)
unfolding insert_match
insert-IsDescending m [] d = (tt, tt)
insert-IsDescending m (k ∷ ms) d = ground (
  arith,
  insert-AllAtMost k.match_count m ms,
  insert-IsDescending m ms d.1,
  AllAtMost-mono k.match_count m.match_count ms,
)

sort-IsDescending : (ms : List MatchedSubscriber) → IsDescending (sort_matches ms)
unfolding sort_matches
sort-IsDescending [] = tt
sort-IsDescending (m ∷ ms) = insert-IsDescending m (sort_matches ms) (sort-IsDescending ms)

insert-perm :
    (m : MatchedSubscriber) (ms : List MatchedSubscriber) → Perm (insert_match m ms) (m ∷ ms)
unfolding insert_match
insert-perm m [] = Perm.refl (m ∷ [])
insert-perm m (k ∷ ms) = elim (Bool-cases (ltb m.match_count k.match_count)) [
  | inl c ↦ rw c (Perm.trans (Perm.cons k (insert-perm m ms)) (Perm.swap m k ms))
  | inr c ↦ rw c (Perm.refl (m ∷ k ∷ ms))
]

sort-perm : (ms : List MatchedSubscriber) → Perm (sort_matches ms) ms
unfolding sort_matches
sort-perm [] = Perm.refl []
sort-perm (m ∷ ms) = Perm.trans (insert-perm m (sort_matches ms)) (Perm.cons m (sort-perm ms))

-- The matched subscribers come with the most matches first, and sorting them loses and adds none.
pub match_alert-IsDescending :
    (subs : List SubscriberConfig) (a : Alert)
    → IsDescending (match_alert subs a) × Perm (match_alert subs a) (match_all a subs)
unfolding match_alert
match_alert-IsDescending subs a =
    (sort-IsDescending (match_all a subs), sort-perm (match_all a subs))

abbrev pub Distinct : List String → Type 0
Distinct [] = Unit
Distinct (x ∷ xs) = (contains x xs ≡ false) × Distinct xs

contains-distinct_ids :
    (k : String) (seen ids : List String)
    → contains k (distinct_ids seen ids) ≡ (is_set k && contains k ids && not (contains k seen))
unfolding distinct_ids
contains-distinct_ids k seen [] = ground arith
contains-distinct_ids k seen (id ∷ ids) = ground (
  arith,
  eq_iff id k,
  eq_iff id "",
  eq_iff k "",
  contains-distinct_ids k seen ids,
  contains-distinct_ids k (id ∷ seen) ids,
)

distinct_ids-Distinct : (seen ids : List String) → Distinct (distinct_ids seen ids)
unfolding distinct_ids
distinct_ids-Distinct seen [] = tt
distinct_ids-Distinct seen (id ∷ ids) = ground (
  arith,
  eq_iff id id,
  contains-distinct_ids id (id ∷ seen) ids,
  distinct_ids-Distinct seen ids,
  distinct_ids-Distinct (id ∷ seen) ids,
)

-- The Slack ids of the matched subscribers are distinct, and are exactly the ids that are set on one
-- of them.
pub get_slack_user_ids_lem :
    (matched : List MatchedSubscriber) (k : String)
    → Distinct (get_slack_user_ids matched)
      × (contains k (get_slack_user_ids matched)
          ≡ (is_set k && contains k (map (λ m. m.subscriber.slack_user_id) matched)))
unfolding get_slack_user_ids
get_slack_user_ids_lem matched k =
    let ids = map (λ (m : MatchedSubscriber). m.subscriber.slack_user_id) matched in
    (distinct_ids-Distinct [] ids, ground (arith, contains-distinct_ids k [] ids))
