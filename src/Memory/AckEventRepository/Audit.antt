-- ===== src/Memory/AckEventRepository/Audit.antt =====
-- The audit trail of an alert.
use alert_bridge.Base.{
  ℕ, ◌≤◌, String, ◌≡◌, refl, ◌≢◌, ◌⊎◌, inl, inr, ◌↔◌, false, none, some, List, [], ◌∷◌, ◌++◌, arith,
  eq_iff, ltb, Bool-cases, In, contains, ==-refl, ==-false, ap, ◌∙◌, In-append, In-append_left,
  In-append_right,
}
use alert_bridge.Base.Assoc.{Map, lookup, insert, get_or, lookup-insert, get_or-insert}
use alert_bridge.Entity.AckEvent.{AckEvent}
use alert_bridge.Memory.AckEventRepository.{
  AckEventRepository, save_event, events_of, insert_event, sort_events, find_by_alert_id, latest_of,
  find_latest_by_alert_id,
}

-- No event of the list is older than `t`.
abbrev pub AllAfter : ℕ → List AckEvent → Type 0
AllAfter t [] = Unit
AllAfter t (e ∷ es) = (t ≤ e.created_at) × AllAfter t es

abbrev pub IsChronological : List AckEvent → Type 0
IsChronological [] = Unit
IsChronological (e ∷ es) = AllAfter e.created_at es × IsChronological es

AllAfter-mono : (t u : ℕ) (es : List AckEvent) → u ≤ t → AllAfter t es → AllAfter u es
AllAfter-mono t u [] h a = tt
AllAfter-mono t u (e ∷ es) h a = (omega arith, AllAfter-mono t u es h a.1)

insert-AllAfter :
    (t : ℕ) (e : AckEvent) (es : List AckEvent)
    → t ≤ e.created_at
    → AllAfter t es
    → AllAfter t (insert_event e es)
unfolding insert_event
insert-AllAfter t e [] h a = (h, tt)
insert-AllAfter t e (f ∷ fs) h a = ground (arith, insert-AllAfter t e fs h a.1)

insert-IsChronological :
    (e : AckEvent) (es : List AckEvent) → IsChronological es → IsChronological (insert_event e es)
unfolding insert_event
insert-IsChronological e [] c = (tt, tt)
insert-IsChronological e (f ∷ fs) c = ground (
  arith,
  insert-AllAfter f.created_at e fs,
  insert-IsChronological e fs c.1,
  AllAfter-mono f.created_at e.created_at fs,
)

sort-IsChronological : (es : List AckEvent) → IsChronological (sort_events es)
unfolding sort_events
sort-IsChronological [] = tt
sort-IsChronological (e ∷ es) = insert-IsChronological e (sort_events es) (sort-IsChronological es)

In-insert_event :
    (x e : AckEvent) (es : List AckEvent) → In x (insert_event e es) ↔ ((x ≡ e) ⊎ In x es)
unfolding insert_event
In-insert_event x e [] = (λ i. i, λ i. i)
In-insert_event x e (f ∷ fs) = elim (Bool-cases (ltb f.created_at e.created_at)) [
  | inl c ↦ (
    λ i. elim (rw c at i) [
      | inl q ↦ inr (inl q)
      | inr j ↦ elim ((In-insert_event x e fs).0 j) [ inl q ↦ inl q | inr k ↦ inr (inr k) ]
    ],
    λ i. rw c (elim i [
      | inl q ↦ inr ((In-insert_event x e fs).1 (inl q))
      | inr (inl q) ↦ inl q
      | inr (inr j) ↦ inr ((In-insert_event x e fs).1 (inr j))
    ]),
  )
  | inr c ↦ (λ i. rw c at i, λ i. rw c i)
]

In-sort_events : (x : AckEvent) (es : List AckEvent) → In x (sort_events es) ↔ In x es
unfolding sort_events
In-sort_events x [] = (λ i. i, λ i. i)
In-sort_events x (e ∷ es) = (
  λ i. elim ((In-insert_event x e (sort_events es)).0 i) [
    | inl q ↦ inl q
    | inr j ↦ inr ((In-sort_events x es).0 j)
  ],
  λ i.
      (In-insert_event x e (sort_events es)).1
        (elim i [ inl q ↦ inl q | inr j ↦ inr ((In-sort_events x es).1 j) ]),
)

events_of-insert :
    (e : AckEvent) (m : Map AckEvent) (ids : List String)
    → contains e.id ids ≡ false
    → events_of (insert e.id e m) ids ≡ events_of m ids
unfolding events_of
events_of-insert e m [] c = refl
events_of-insert e m (id ∷ ids) c =
    ground
      (arith, eq_iff id e.id, eq_iff e.id id, lookup-insert e.id id e m, events_of-insert e m ids)

events_of-append :
    (e : AckEvent) (m : Map AckEvent) (ids : List String)
    → lookup e.id m ≡ some e
    → events_of m (ids ++ e.id ∷ []) ≡ events_of m ids ++ e ∷ []
unfolding events_of
events_of-append e m [] l = rw l refl
events_of-append e m (id ∷ ids) l = ground (arith, events_of-append e m ids l)

module _ (e : AckEvent) (r : AckEventRepository)
    (fresh : (k : String) → contains e.id (get_or [] k r.by_alert_id) ≡ false) where
  own_trail :
      events_of (save_event e r).events (get_or [] e.alert_id (save_event e r).by_alert_id)
      ≡ events_of r.events (get_or [] e.alert_id r.by_alert_id) ++ e ∷ []
  unfolding save_event
  own_trail =
      let ids = get_or [] e.alert_id r.by_alert_id in
      rw (get_or-insert, ==-refl e.alert_id)
        (events_of-append e (insert e.id e r.events) ids (rw (lookup-insert, ==-refl e.id) refl)
          ∙ ap (λ es. es ++ e ∷ []) (events_of-insert e r.events ids (fresh e.alert_id)))

  other_trail :
      (alert_id : String)
      → e.alert_id ≢ alert_id
      → events_of (save_event e r).events (get_or [] alert_id (save_event e r).by_alert_id)
        ≡ events_of r.events (get_or [] alert_id r.by_alert_id)
  unfolding save_event
  other_trail alert_id n =
      rw (get_or-insert, ==-false e.alert_id alert_id n)
        (events_of-insert e r.events (get_or [] alert_id r.by_alert_id) (fresh alert_id))

-- Saving an event whose id stands in no index adds exactly that event to the trail of its alert,
-- and leaves the trail of every other alert as it was; a trail is always in order of time.
pub save_event-trail :
    (e x : AckEvent) (r : AckEventRepository) (alert_id : String)
    → ((k : String) → contains e.id (get_or [] k r.by_alert_id) ≡ false)
    → (In x (find_by_alert_id e.alert_id (save_event e r))
        ↔ ((x ≡ e) ⊎ In x (find_by_alert_id e.alert_id r)))
      × (e.alert_id ≢ alert_id
          → find_by_alert_id alert_id (save_event e r) ≡ find_by_alert_id alert_id r)
      × IsChronological (find_by_alert_id alert_id (save_event e r))
unfolding find_by_alert_id
save_event-trail e x r alert_id fresh =
    let old = events_of r.events (get_or [] e.alert_id r.by_alert_id) in
    (
      rw (own_trail e r fresh) (
        λ i. elim (In-append x old (e ∷ []) ((In-sort_events x (old ++ e ∷ [])).0 i)) [
          | inl j ↦ inr ((In-sort_events x old).1 j)
          | inr (inl q) ↦ inl q
          | inr (inr n) ↦ absurd n
        ],
        λ i. (In-sort_events x (old ++ e ∷ [])).1 (elim i [
          | inl q ↦ In-append_right x old (e ∷ []) (inl q)
          | inr j ↦ In-append_left x old (e ∷ []) ((In-sort_events x old).0 j)
        ]),
      ),
      λ n. ap sort_events (other_trail e r fresh alert_id n),
      sort-IsChronological
          (events_of (save_event e r).events (get_or [] alert_id (save_event e r).by_alert_id)),
    )

abbrev pub AllUpTo : ℕ → List AckEvent → Type 0
AllUpTo t [] = Unit
AllUpTo t (e ∷ es) = (e.created_at ≤ t) × AllUpTo t es

AllUpTo-mono : (t u : ℕ) (es : List AckEvent) → t ≤ u → AllUpTo t es → AllUpTo u es
AllUpTo-mono t u [] h a = tt
AllUpTo-mono t u (e ∷ es) h a = (omega arith, AllUpTo-mono t u es h a.1)

latest_of-max :
    (l : AckEvent) (es : List AckEvent)
    → (m : AckEvent) × (latest_of (some l) es ≡ some m)
      × (In m es ⊎ (m ≡ l))
      × (l.created_at ≤ m.created_at)
      × AllUpTo m.created_at es
unfolding latest_of
latest_of-max l [] = (l, refl, inr refl, omega arith, tt)
latest_of-max l (e ∷ es) = elim (Bool-cases (ltb l.created_at e.created_at)) [
  | inl c ↦
      let (m, q, i, le, a) = latest_of-max e es in
      (m, rw c q, elim i [ inl j ↦ inl (inr j) | inr k ↦ inl (inl k) ], ground arith, (le, a))
  | inr c ↦
      let (m, q, i, le, a) = latest_of-max l es in
      (m, rw c q, elim i [ inl j ↦ inl (inr j) | inr k ↦ inr k ], le, (ground arith, a))
]

latest_cases :
    (es : List AckEvent)
    → ((es ≡ []) × (latest_of none es ≡ none))
      ⊎ ((m : AckEvent) × (latest_of none es ≡ some m) × In m es × AllUpTo m.created_at es)
unfolding latest_of
latest_cases [] = inl (refl, refl)
latest_cases (e ∷ es) =
    let (m, q, i, le, a) = latest_of-max e es in
    inr (m, q, elim i [ inl j ↦ inr j | inr k ↦ inl k ], (le, a))

AllUpTo-In : (t : ℕ) (es : List AckEvent) (x : AckEvent) → AllUpTo t es → In x es → x.created_at ≤ t
AllUpTo-In t [] x a i = absurd i
AllUpTo-In t (e ∷ es) x a (inl q) = rw q a.0
AllUpTo-In t (e ∷ es) x a (inr i) = AllUpTo-In t es x a.1 i

In-empty : (x : AckEvent) (es : List AckEvent) → es ≡ [] → ¬ In x es
In-empty x [] e i = i
In-empty x (f ∷ fs) e i = cc

-- The latest event of an alert is none exactly if its trail is empty; otherwise it is an event of
-- the trail, and no event of the trail is later.
pub find_latest_lem :
    (alert_id : String) (r : AckEventRepository)
    → ((find_latest_by_alert_id alert_id r ≡ none)
        × ((x : AckEvent) → ¬ In x (find_by_alert_id alert_id r)))
      ⊎ ((m : AckEvent) × (find_latest_by_alert_id alert_id r ≡ some m)
          × In m (find_by_alert_id alert_id r)
          × ((x : AckEvent) → In x (find_by_alert_id alert_id r) → x.created_at ≤ m.created_at))
unfolding find_latest_by_alert_id find_by_alert_id
find_latest_lem alert_id r =
    let es = events_of r.events (get_or [] alert_id r.by_alert_id) in
    elim (latest_cases es) [
      | inl (e, q) ↦ inl (q, λ x i. In-empty x es e ((In-sort_events x es).0 i))
      | inr (m, q, i, a) ↦ inr (
        m,
        q,
        (In-sort_events m es).1 i,
        λ x j. AllUpTo-In m.created_at es x a ((In-sort_events x es).0 j),
      )
    ]
