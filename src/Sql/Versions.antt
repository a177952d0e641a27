-- ===== src/Sql/Versions.antt =====
-- Optimistic locking: UPDATE ... WHERE id = ? AND version = ?, on a table whose rows have a version.
use alert_bridge.Base.{
  ℕ, String, ◌≡◌, refl, sym, ap, ◌∙◌, inl, inr, Bool, true, false, ◌&&◌, ◌||◌, Bool-cases, none,
  some, List, [], ◌∷◌, ◌==◌, eqb, eqb_refl, ==-refl, if◌then◌else◌, map, arith,
}
use alert_bridge.Sql.Tables.{row_of, row_of-key, row_of-map, map_option}

module _ {R : Type 0} (key : R → String) (version : R → ℕ) where
  abbrev pub is_target : String → ℕ → R → Bool
  is_target id v r = (key r == id) && eqb (version r) v

  -- The rows behind the statement, which sets columns by `set`.
  unfoldable pub update_where : (R → R) → String → ℕ → List R → List R
  update_where set id v rows = map (λ r. if is_target id v r then set r else r) rows

  -- rowsAffected != 0
  unfoldable pub any_target : String → ℕ → List R → Bool
  any_target id v [] = false
  any_target id v (r ∷ rs) = is_target id v r || any_target id v rs

  -- The id is the primary key: no other row has it.
  abbrev pub OneRow : String → List R → Type 0
  OneRow id [] = Unit
  OneRow id (r ∷ rs) = ((key r == id) ≡ true → row_of key id rs ≡ none) × OneRow id rs

  pub any_target-none :
      (id : String) (v : ℕ) (t : List R) → row_of key id t ≡ none → any_target id v t ≡ false
  unfolding any_target row_of
  any_target-none id v [] n = refl
  any_target-none id v (r ∷ t) n = ground (arith, any_target-none id v t)

  pub any_target-some :
      (id : String) (v : ℕ) (t : List R) (r : R)
      → OneRow id t
      → row_of key id t ≡ some r
      → any_target id v t ≡ eqb (version r) v
  unfolding any_target row_of
  any_target-some id v [] r o e = ground arith
  any_target-some id v (q ∷ t) r o e =
      ground (arith, any_target-some id v t r o.1, any_target-none id v t, o.0)

  abbrev after : (R → R) → String → ℕ → R → R
  after set id v r = if is_target id v r then set r else r

  module _ (set : R → R) (keeps : (r : R) → key (set r) ≡ key r) (id : String) (v : ℕ) where
    after-key : (r : R) → key (after set id v r) ≡ key r
    after-key r = elim (Bool-cases (is_target id v r)) [
      | inl e ↦ rw (e) (keeps r)
      | inr e ↦ rw (e) refl
    ]

    row_of-update_where :
        (k : String) (t : List R)
        → row_of key k (update_where set id v t) ≡ map_option (after set id v) (row_of key k t)
    unfolding update_where
    row_of-update_where k t = row_of-map key k (after set id v) t after-key

    pub update_where-OneRow :
        (k : String) (t : List R) → OneRow k t → OneRow k (update_where set id v t)
    unfolding update_where
    update_where-OneRow k [] o = o
    update_where-OneRow k (r ∷ t) o = (
      λ e. rw (row_of-update_where k t, o.0 (ap (λ s. s == k) (sym (after-key r)) ∙ e)) refl,
      update_where-OneRow k t o.1,
    )

    here : (r : R) → key r ≡ id → version r ≡ v → after set id v r ≡ set r
    here r p w = rw (p, w, ==-refl id, eqb_refl v) refl

    -- The row of the statement, in the version that it names, is set.
    pub row_of-updated :
        (t : List R) (r : R)
        → row_of key id t ≡ some r
        → version r ≡ v
        → row_of key id (update_where set id v t) ≡ some (set r)
    row_of-updated t r e w =
        rw (row_of-update_where id t, e) (ap some (here r (row_of-key key id t r e) w))
