-- ===== src/UseCase/Retry/Attempts.antt =====
-- How often the wrapped notifier is called, and what the caller gets.
use native.Mathlib.Nat.{add-zero, add-suc, suc-add}
use alert_bridge.Base.{
  ap, ◌∙◌, ℕ, zero, suc, ◌+◌, ◌≤◌, ◌<◌, String, ◌≡◌, refl, ◌⊎◌, inl, inr, true, none, arith,
}
use alert_bridge.Errors.{Error, Result, ok, err, is_transient_error}
use alert_bridge.Resilience.CircuitBreaker.{CircuitBreaker, Execution}
use alert_bridge.UseCase.Retry.{Attempt, Outcome, notify_from, notify, round}

-- The attempt failed with a transient error and the context lived through the wait.
abbrev pub IsRetried : Attempt → Type 0
IsRetried a = (e : Error) × (a.reply ≡ err e) × (is_transient_error e ≡ true) × (a.cancelled ≡ none)

-- `count` attempts from number `n` on were all retried.
abbrev pub AllRetried : ℕ → ℕ → (ℕ → Attempt) → Type 0
AllRetried zero n env = Unit
AllRetried (suc count) n env = IsRetried (env n) × AllRetried count (suc n) env

round-calls :
    (k : ℕ) (a : Attempt) (x : Execution) (rest : Outcome)
    → rest.calls ≤ k
    → (round k a x rest).calls ≤ suc k
unfolding round
round-calls zero a x rest h = ground arith
round-calls (suc k) a x rest h = ground arith

round-ok :
    (k : ℕ) (a : Attempt) (x : Execution) (rest : Outcome) (message : String)
    → (round k a x rest).reply ≡ ok message
    → (((round k a x rest).calls ≡ 1) × (a.reply ≡ ok message))
      ⊎ ((j : ℕ) × (k ≡ suc j)
          × ((round k a x rest).calls ≡ suc rest.calls)
          × IsRetried a
          × (rest.reply ≡ ok message))
unfolding round
round-ok zero a x rest message h = inl (ground arith, ground arith)
round-ok (suc k) a x rest message h = go a.reply refl
  where
    go :
        (r : Result String)
        → a.reply ≡ r
        → (((round (suc k) a x rest).calls ≡ 1) × (a.reply ≡ ok message))
          ⊎ ((j : ℕ) × (suc k ≡ suc j)
              × ((round (suc k) a x rest).calls ≡ suc rest.calls)
              × IsRetried a
              × (rest.reply ≡ ok message))
    go (ok m) e = inl (ground arith, ground arith)
    go (err f) e = inr (k, refl, ground arith, (f, e, ground arith, ground arith), ground arith)

notify_from-calls :
    (k n : ℕ) (env : ℕ → Attempt) (cb : CircuitBreaker) → (notify_from k n env cb).calls ≤ k
unfolding notify_from
notify_from-calls zero n env cb = omega arith
notify_from-calls (suc k) n env cb = round-calls k (env n) _ _ (notify_from-calls k (suc n) env _)

notify_from-ok :
    (k n : ℕ) (env : ℕ → Attempt) (cb : CircuitBreaker) (message : String)
    → (notify_from (suc k) n env cb).reply ≡ ok message
    → (i : ℕ) × ((notify_from (suc k) n env cb).calls ≡ suc i)
      × (i ≤ k)
      × AllRetried i n env
      × ((env (n + i)).reply ≡ ok message)
unfolding notify_from
notify_from-ok zero n env cb message h = elim (round-ok zero (env n) _ _ message h) [
  | inl (c, r) ↦ (0, c, omega arith, tt, rw (add-zero n) r)
  | inr (j, e, c, re, r) ↦ absurd (omega arith)
]
notify_from-ok (suc k) n env cb message h = elim (round-ok (suc k) (env n) _ _ message h) [
  | inl (c, r) ↦ (0, c, omega arith, tt, rw (add-zero n) r)
  | inr (j, e, c, re, r) ↦
      let (i, ci, le, all, last) = notify_from-ok k (suc n) env _ message r in
      (suc i, c ∙ ap suc ci, omega arith, (re, all), rw (add-suc n i, ← suc-add n i) last)
]

-- Notify calls the wrapped notifier at most as often as the policy allows. If it succeeds, and
-- the policy allows an attempt, the reply is that of its last call, and every call before that
-- failed with a transient error and was waited out.
pub notify_lem :
    (k : ℕ) (env : ℕ → Attempt) (cb : CircuitBreaker)
    → ((notify k env cb).calls ≤ k)
      × ((message : String)
          → 0 < k
          → (notify k env cb).reply ≡ ok message
          → (i : ℕ) × ((notify k env cb).calls ≡ suc i)
            × AllRetried i 1 env
            × ((env (1 + i)).reply ≡ ok message))
unfolding notify
notify_lem zero env cb = (omega arith, λ message h e. absurd (omega arith))
notify_lem (suc k) env cb = (
  notify_from-calls (suc k) 1 env cb,
  λ message h e.
      let (i, c, le, all, last) = notify_from-ok k 1 env cb message e in (i, c, all, last),
)
