-- ===== src/Presenter/SummaryFormatter/Sorting.antt =====
-- The sort of formatTopInstances of internal/adapter/presenter/slack_alert_formatter.go.
use alert_bridge.Base.{ℕ, zero, suc, ◌≤◌, ◌≡◌, refl, Bool, List, [], ◌∷◌, length, count_if, arith}
use alert_bridge.Presenter.SummaryFormatter.{
  InstanceCount, exchange, sort_instances_from, sort_instances,
}

-- No count of the list is above this one.
abbrev IsTop : ℕ → List InstanceCount → Type 0
IsTop n [] = Unit
IsTop n (x ∷ xs) = (x.1 ≤ n) × IsTop n xs

abbrev pub IsDescending : List InstanceCount → Type 0
IsDescending [] = Unit
IsDescending (x ∷ xs) = IsTop x.1 xs × IsDescending xs

length-exchange :
    (x : InstanceCount) (xs : List InstanceCount) → length (exchange x xs).1 ≡ length xs
unfolding exchange
length-exchange x [] = refl
length-exchange x (y ∷ ys) = ground (arith, length-exchange x ys, length-exchange y ys)

exchange-IsTop :
    (x : InstanceCount) (xs : List InstanceCount)
    → (x.1 ≤ (exchange x xs).0.1) × IsTop (exchange x xs).0.1 (exchange x xs).1
unfolding exchange
exchange-IsTop x [] = (omega arith, tt)
exchange-IsTop x (y ∷ ys) = ground (arith, exchange-IsTop x ys, exchange-IsTop y ys)

module _ (p : InstanceCount → Bool) where
  count_if-exchange :
      (x : InstanceCount) (xs : List InstanceCount)
      → count_if p ((exchange x xs).0 ∷ (exchange x xs).1) ≡ count_if p (x ∷ xs)
  unfolding exchange
  count_if-exchange x [] = refl
  count_if-exchange x (y ∷ ys) = ground (arith, count_if-exchange x ys, count_if-exchange y ys)

  count_if-sort_instances_from :
      (n : ℕ) (xs : List InstanceCount) → count_if p (sort_instances_from n xs) ≡ count_if p xs
  unfolding sort_instances_from
  count_if-sort_instances_from zero xs = refl
  count_if-sort_instances_from (suc n) [] = refl
  count_if-sort_instances_from (suc n) (x ∷ xs) =
      omega (arith, count_if-sort_instances_from n (exchange x xs).1, count_if-exchange x xs)

exchange-keeps_IsTop :
    (n : ℕ) (x : InstanceCount) (xs : List InstanceCount)
    → IsTop n (x ∷ xs)
    → IsTop n ((exchange x xs).0 ∷ (exchange x xs).1)
unfolding exchange
exchange-keeps_IsTop n x [] h = h
exchange-keeps_IsTop n x (y ∷ ys) h =
    ground (arith, exchange-keeps_IsTop n x ys (h.0, h.1.1), exchange-keeps_IsTop n y ys h.1)

sort_instances_from-keeps_IsTop :
    (n fuel : ℕ) (xs : List InstanceCount) → IsTop n xs → IsTop n (sort_instances_from fuel xs)
unfolding sort_instances_from
sort_instances_from-keeps_IsTop n zero xs h = h
sort_instances_from-keeps_IsTop n (suc fuel) [] h = h
sort_instances_from-keeps_IsTop n (suc fuel) (x ∷ xs) h =
    let kept = exchange-keeps_IsTop n x xs h in
    (kept.0, sort_instances_from-keeps_IsTop n fuel (exchange x xs).1 kept.1)

sort_instances_from-IsDescending :
    (fuel : ℕ) (xs : List InstanceCount)
    → length xs ≤ fuel
    → IsDescending (sort_instances_from fuel xs)
unfolding sort_instances_from
sort_instances_from-IsDescending zero [] h = tt
sort_instances_from-IsDescending zero (x ∷ xs) h = absurd (omega arith)
sort_instances_from-IsDescending (suc fuel) [] h = tt
sort_instances_from-IsDescending (suc fuel) (x ∷ xs) h = (
  sort_instances_from-keeps_IsTop (exchange x xs).0.1 fuel (exchange x xs).1
      (exchange-IsTop x xs).1,
  sort_instances_from-IsDescending fuel (exchange x xs).1 (omega (arith, length-exchange x xs)),
)

-- The two loops of formatTopInstances end with the instances in the order of their counts, the largest
-- first: as many rounds of the outer loop as there are instances are enough, and no instance is lost or
-- repeated, whatever property it is told by.
pub sort_instances_lem :
    (xs : List InstanceCount) (p : InstanceCount → Bool)
    → IsDescending (sort_instances xs) × (count_if p (sort_instances xs) ≡ count_if p xs)
unfolding sort_instances
sort_instances_lem xs p = (
  sort_instances_from-IsDescending (length xs) xs (omega arith),
  count_if-sort_instances_from p (length xs) xs,
)
