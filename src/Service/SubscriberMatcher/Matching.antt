-- ===== src/Service/SubscriberMatcher/Matching.antt =====
-- Which subscribers an alert is matched to.
use alert_bridge.Base.{
  ◌≤◌, ◌<◌, String, ◌≡◌, refl, sym, ap, ◌∙◌, ◌≢◌, ◌⊎◌, inl, inr, ◌↔◌, true, Option, none, some,
  List, [], ◌∷◌, arith, eq_iff, ltb, Bool-cases, In, length,
}
use alert_bridge.Base.Assoc.{Map, lookup}
use alert_bridge.Entity.Alert.{Alert}
use alert_bridge.Service.SubscriberMatcher.{
  SubscriberConfig, MatchedSubscriber, is_enabled, count_matching_labels, match_one, match_all,
  match_alert, cons_match, sort_matches, insert_match, has_value,
}

-- Every label of the filter stands in the alert with the same value.
abbrev pub HasAll : Map String → Map String → Type 0
HasAll [] alert_labels = Unit
HasAll ((k, v) ∷ m) alert_labels = (lookup k alert_labels ≡ some v) × HasAll m alert_labels

count-le : (m l : Map String) → count_matching_labels m l ≤ length m
unfolding count_matching_labels
count-le [] l = omega arith
count-le ((k, v) ∷ m) l = ground (arith, count-le m l)

has_value_iff : (o : Option String) (v : String) → (has_value o v ≡ true) ↔ (o ≡ some v)
has_value_iff none v = ground arith
has_value_iff (some w) v = ground (arith, eq_iff w v)

count-HasAll : (m l : Map String) → count_matching_labels m l ≡ length m → HasAll m l
unfolding count_matching_labels
count-HasAll [] l h = tt
count-HasAll ((k, v) ∷ m) l h =
    ground (arith, count-le m l, has_value_iff (lookup k l) v, count-HasAll m l)

HasAll-count : (m l : Map String) → HasAll m l → count_matching_labels m l ≡ length m
unfolding count_matching_labels
HasAll-count [] l h = refl
HasAll-count ((k, v) ∷ m) l h = ground (arith, has_value_iff (lookup k l) v, HasAll-count m l h.1)

In-insert_match :
    (x m : MatchedSubscriber) (ms : List MatchedSubscriber)
    → In x (insert_match m ms) ↔ ((x ≡ m) ⊎ In x ms)
unfolding insert_match
In-insert_match x m [] = (λ i. i, λ i. i)
In-insert_match x m (n ∷ ms) = elim (Bool-cases (ltb m.match_count n.match_count)) [
  | inl c ↦ (
    λ i. elim (rw c at i) [
      | inl e ↦ inr (inl e)
      | inr j ↦ elim ((In-insert_match x m ms).0 j) [ inl e ↦ inl e | inr k ↦ inr (inr k) ]
    ],
    λ i. rw c (elim i [
      | inl e ↦ inr ((In-insert_match x m ms).1 (inl e))
      | inr (inl e) ↦ inl e
      | inr (inr j) ↦ inr ((In-insert_match x m ms).1 (inr j))
    ]),
  )
  | inr c ↦ (λ i. rw c at i, λ i. rw c i)
]

In-sort_matches :
    (x : MatchedSubscriber) (ms : List MatchedSubscriber) → In x (sort_matches ms) ↔ In x ms
unfolding sort_matches
In-sort_matches x [] = (λ i. i, λ i. i)
In-sort_matches x (m ∷ ms) = (
  λ i. elim ((In-insert_match x m (sort_matches ms)).0 i) [
    | inl e ↦ inl e
    | inr j ↦ inr ((In-sort_matches x ms).0 j)
  ],
  λ i.
      (In-insert_match x m (sort_matches ms)).1
        (elim i [ inl e ↦ inl e | inr j ↦ inr ((In-sort_matches x ms).1 j) ]),
)

-- What it takes for a subscriber to be matched.
abbrev pub Matches : Alert → MatchedSubscriber → Type 0
Matches a m =
    (is_enabled m.subscriber ≡ true)
    × (m.subscriber.labels ≢ [])
    × HasAll m.subscriber.labels a.labels
    × (m.match_count ≡ length m.subscriber.labels)

In-cons_match :
    (o : Option MatchedSubscriber) (ms : List MatchedSubscriber) (m : MatchedSubscriber)
    → In m (cons_match o ms)
    → (o ≡ some m) ⊎ In m ms
In-cons_match none ms m i = inr i
In-cons_match (some n) ms m (inl e) = inl (ap some (sym e))
In-cons_match (some n) ms m (inr i) = inr i

cons_match-In :
    (o : Option MatchedSubscriber) (ms : List MatchedSubscriber) (m : MatchedSubscriber)
    → In m ms
    → In m (cons_match o ms)
cons_match-In none ms m i = i
cons_match-In (some n) ms m i = inr i

match_one_cases :
    (a : Alert) (s : SubscriberConfig) (m : MatchedSubscriber)
    → match_one a s ≡ some m
    → (m.subscriber ≡ s)
      × (is_enabled s ≡ true)
      × (0 < m.match_count)
      × (m.match_count ≡ count_matching_labels s.labels a.labels)
      × (m.match_count ≡ length s.labels)
unfolding match_one
match_one_cases a s m h = ground arith

match_one_sound :
    (a : Alert) (s : SubscriberConfig) (m : MatchedSubscriber)
    → match_one a s ≡ some m
    → (m.subscriber ≡ s) × Matches a m
match_one_sound a s m h =
    let (e, on, pos, c, l) = match_one_cases a s m h in
    let el : m.subscriber.labels ≡ s.labels = ap (λ t. t.labels) e in
    (
      e,
      (
        ap is_enabled e ∙ on,
        λ n. absurd (omega (arith, ap length n, ap length el)),
        count-HasAll m.subscriber.labels a.labels
            (ap (λ t. count_matching_labels t a.labels) el ∙ sym c ∙ l ∙ ap length (sym el)),
        l ∙ ap length (sym el),
      ),
    )

positive_length {ℓ} : {A : Type ℓ} (xs : List A) → xs ≢ [] → 0 < length xs
positive_length [] h = absurd (h refl)
positive_length (x ∷ xs) h = omega arith

match_one_complete :
    (a : Alert) (m : MatchedSubscriber) → Matches a m → match_one a m.subscriber ≡ some m
unfolding match_one
match_one_complete a m h =
    ground (
      arith,
      HasAll-count m.subscriber.labels a.labels h.2,
      positive_length m.subscriber.labels h.1,
    )

match_all_sound :
    (a : Alert) (subs : List SubscriberConfig) (m : MatchedSubscriber)
    → In m (match_all a subs)
    → In m.subscriber subs × Matches a m
unfolding match_all
match_all_sound a [] m i = absurd i
match_all_sound a (s ∷ subs) m i = elim (In-cons_match (match_one a s) _ m i) [
  | inl e ↦ let (es, q) = match_one_sound a s m e in (inl es, q)
  | inr j ↦ let (k, q) = match_all_sound a subs m j in (inr k, q)
]

match_all_complete :
    (a : Alert) (subs : List SubscriberConfig) (m : MatchedSubscriber)
    → In m.subscriber subs
    → Matches a m
    → In m (match_all a subs)
unfolding match_all
match_all_complete a [] m i q = absurd i
match_all_complete a (s ∷ subs) m (inl e) q = rw (← e, match_one_complete a m q) (inl refl)
match_all_complete a (s ∷ subs) m (inr i) q =
    cons_match-In (match_one a s) _ m (match_all_complete a subs m i q)

-- A subscriber is matched to an alert, with its number of labels as the count, exactly if it is
-- configured and enabled, has at least one label, and the alert has every label of it with the same
-- value.
pub match_alert_iff :
    (subs : List SubscriberConfig) (a : Alert) (m : MatchedSubscriber)
    → In m (match_alert subs a) ↔ (In m.subscriber subs × Matches a m)
unfolding match_alert
match_alert_iff subs a m = (
  λ i. match_all_sound a subs m ((In-sort_matches m (match_all a subs)).0 i),
  λ (i, q). (In-sort_matches m (match_all a subs)).1 (match_all_complete a subs m i q),
)
