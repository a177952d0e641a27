-- ===== src/UseCase/Retry/Updates.antt =====
-- The loop of UpdateMessage.
use native.Mathlib.Nat.{add-zero, add-suc, suc-add}
use alert_bridge.Base.{
  ℕ, zero, suc, ◌+◌, ◌≤◌, String, ◌≡◌, refl, ap, ◌∙◌, ◌⊎◌, inl, inr, none, arith,
}
use alert_bridge.Errors.{Result, ok, err}
use alert_bridge.UseCase.Retry.{
  Attempt, Update, error_of, after_update, update_from, update_message,
}
use alert_bridge.UseCase.Retry.Attempts.{IsRetried, AllRetried}

after_update-none :
    (k : ℕ) (a : Attempt) (rest : Update)
    → (after_update k (error_of a.reply) a.cancelled rest).result ≡ none
    → (((after_update k (error_of a.reply) a.cancelled rest).calls ≡ 1)
        × ((m : String) × (a.reply ≡ ok m)))
      ⊎ ((j : ℕ) × (k ≡ suc j)
          × ((after_update k (error_of a.reply) a.cancelled rest).calls ≡ suc rest.calls)
          × IsRetried a
          × (rest.result ≡ none))
unfolding after_update
after_update-none k a rest h = go k a.reply refl h
  where
    go :
        (k : ℕ) (r : Result String)
        → a.reply ≡ r
        → (after_update k (error_of a.reply) a.cancelled rest).result ≡ none
        → (((after_update k (error_of a.reply) a.cancelled rest).calls ≡ 1)
            × ((m : String) × (a.reply ≡ ok m)))
          ⊎ ((j : ℕ) × (k ≡ suc j)
              × ((after_update k (error_of a.reply) a.cancelled rest).calls ≡ suc rest.calls)
              × IsRetried a
              × (rest.result ≡ none))
    go k (ok m) e h = inl (ground arith, (m, e))
    go zero (err f) e h = absurd (ground arith)
    go (suc k) (err f) e h =
        inr (k, refl, ground arith, (f, e, ground arith, ground arith), ground arith)

update_from-none :
    (k n : ℕ) (env : ℕ → Attempt)
    → (update_from (suc k) n env).result ≡ none
    → (i : ℕ) × ((update_from (suc k) n env).calls ≡ suc i)
      × (i ≤ k)
      × AllRetried i n env
      × ((m : String) × ((env (n + i)).reply ≡ ok m))
unfolding update_from
update_from-none zero n env h =
    elim (after_update-none zero (env n) (update_from zero (suc n) env) h) [
      | inl (c, (m, r)) ↦ (0, c, omega arith, tt, (m, rw (add-zero n) r))
      | inr (j, e, c, re, r) ↦ absurd (omega arith)
    ]
update_from-none (suc k) n env h =
    elim (after_update-none (suc k) (env n) (update_from (suc k) (suc n) env) h) [
      | inl (c, (m, r)) ↦ (0, c, omega arith, tt, (m, rw (add-zero n) r))
      | inr (j, e, c, re, r) ↦
          let (i, ci, le, all, (m, last)) = update_from-none k (suc n) env r in
          (suc i, c ∙ ap suc ci, omega arith, (re, all), (m, rw (add-suc n i, ← suc-add n i) last))
    ]

-- UpdateMessage reports success only if, within the attempts that the policy allows, its last call
-- succeeded and every call before that failed with a transient error and was waited out.
pub update_message-none :
    (k : ℕ) (env : ℕ → Attempt)
    → (update_message (suc k) env).result ≡ none
    → (i : ℕ) × ((update_message (suc k) env).calls ≡ suc i)
      × (i ≤ k)
      × AllRetried i 1 env
      × ((m : String) × ((env (1 + i)).reply ≡ ok m))
unfolding update_message
update_message-none k env h = update_from-none k 1 env h
