-- ===== src/Entity/AlertSummary/Ranking.antt =====
-- The order of the counts of users, and what the first of them are.
use alert_bridge.Base.{
  ℕ, zero, suc, ◌≤◌, ◌≡◌, refl, ap, ◌⊎◌, inl, inr, Bool-cases, List, [], ◌∷◌, ltb, length, take, In,
  arith,
}
use alert_bridge.Entity.AlertSummary.{UserAckCount, insert_count, sort_counts}

abbrev AtMost : ℕ → List UserAckCount → Type 0
AtMost n cs = (d : UserAckCount) → In d cs → d.count ≤ n

abbrev pub AtLeast : ℕ → List UserAckCount → Type 0
AtLeast n cs = (d : UserAckCount) → In d cs → n ≤ d.count

-- No count is followed by a larger one.
abbrev pub IsDescending : List UserAckCount → Type 0
IsDescending [] = Unit
IsDescending (c ∷ cs) = AtMost c.count cs × IsDescending cs

insert_count-In :
    (x c : UserAckCount) (cs : List UserAckCount) → In x (insert_count c cs) → (x ≡ c) ⊎ In x cs
unfolding insert_count
insert_count-In x c [] i = i
insert_count-In x c (d ∷ ds) i = ground (arith, insert_count-In x c ds)

In-insert_count :
    (x c : UserAckCount) (cs : List UserAckCount) → (x ≡ c) ⊎ In x cs → In x (insert_count c cs)
unfolding insert_count
In-insert_count x c [] i = i
In-insert_count x c (d ∷ ds) i = ground (arith, In-insert_count x c ds)

AtMost-insert_count :
    (n : ℕ) (c : UserAckCount) (cs : List UserAckCount)
    → c.count ≤ n
    → AtMost n cs
    → AtMost n (insert_count c cs)
AtMost-insert_count n c cs p h d i = elim (insert_count-In d c cs i) [
  | inl e ↦ rw e p
  | inr q ↦ h d q
]

insert_count-IsDescending :
    (c : UserAckCount) (cs : List UserAckCount) → IsDescending cs → IsDescending (insert_count c cs)
unfolding insert_count
insert_count-IsDescending c [] h = (λ d i. absurd i, tt)
insert_count-IsDescending c (d ∷ ds) h = elim (Bool-cases (ltb c.count d.count)) [
  | inl e ↦
      rw e (AtMost-insert_count d.count c ds (ground arith) h.0, insert_count-IsDescending c ds h.1)
  | inr e ↦ rw e (smaller (ground arith), h)
]
  where
    smaller : d.count ≤ c.count → AtMost c.count (d ∷ ds)
    smaller p x (inl q) = rw q p
    smaller p x (inr q) = omega (arith, h.0 x q)

pub sort_counts-IsDescending : (cs : List UserAckCount) → IsDescending (sort_counts cs)
unfolding sort_counts
sort_counts-IsDescending [] = tt
sort_counts-IsDescending (c ∷ cs) =
    insert_count-IsDescending c (sort_counts cs) (sort_counts-IsDescending cs)

pub sort_counts-In : (x : UserAckCount) (cs : List UserAckCount) → In x (sort_counts cs) → In x cs
unfolding sort_counts
sort_counts-In x [] i = i
sort_counts-In x (c ∷ cs) i = elim (insert_count-In x c (sort_counts cs) i) [
  | inl e ↦ inl e
  | inr q ↦ inr (sort_counts-In x cs q)
]

pub In-sort_counts : (x : UserAckCount) (cs : List UserAckCount) → In x cs → In x (sort_counts cs)
unfolding sort_counts
In-sort_counts x [] i = i
In-sort_counts x (c ∷ cs) (inl e) = In-insert_count x c (sort_counts cs) (inl e)
In-sort_counts x (c ∷ cs) (inr q) =
    In-insert_count x c (sort_counts cs) (inr (In-sort_counts x cs q))

pub take-In : (n : ℕ) (x : UserAckCount) (cs : List UserAckCount) → In x (take n cs) → In x cs
take-In zero x cs i = absurd i
take-In (suc n) x [] i = i
take-In (suc n) x (c ∷ cs) (inl e) = inl e
take-In (suc n) x (c ∷ cs) (inr q) = inr (take-In n x cs q)

pub take-IsDescending :
    (n : ℕ) (cs : List UserAckCount) → IsDescending cs → IsDescending (take n cs)
take-IsDescending zero cs h = tt
take-IsDescending (suc n) [] h = tt
take-IsDescending (suc n) (c ∷ cs) h = (λ d i. h.0 d (take-In n d cs i), take-IsDescending n cs h.1)

-- What is left out of the first `n` is smaller than they are, and there are `n` of them.
pub In-take :
    (n : ℕ) (x : UserAckCount) (cs : List UserAckCount)
    → IsDescending cs
    → In x cs
    → In x (take n cs) ⊎ ((length (take n cs) ≡ n) × AtLeast x.count (take n cs))
In-take zero x cs h i = inr (refl, λ d q. absurd q)
In-take (suc n) x [] h i = absurd i
In-take (suc n) x (c ∷ cs) h (inl e) = inl (inl e)
In-take (suc n) x (c ∷ cs) h (inr q) = elim (In-take n x cs h.1 q) [
  | inl i ↦ inl (inr i)
  | inr (full, least) ↦ inr (ap suc full, also least)
]
  where
    also : AtLeast x.count (take n cs) → AtLeast x.count (c ∷ take n cs)
    also least d (inl e) = rw e (h.0 x q)
    also least d (inr i) = least d i
