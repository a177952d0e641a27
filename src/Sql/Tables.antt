-- ===== src/Sql/Tables.antt =====
-- A table as the list of its rows, in the order in which they were inserted, and the statements that
-- the repositories use. `key` is the column of the primary key.
use alert_bridge.Base.{
  String, ◌≡◌, refl, not, Option, none, some, List, [], ◌∷◌, ◌++◌, arith, ◌==◌, eq_iff,
  if◌then◌else◌, filter, map,
}

abbrev pub or_first {ℓ} : {A : Type ℓ} → Option A → Option A → Option A
or_first (some x) y = some x
or_first none y = y

abbrev pub map_option {ℓ κ} : {A : Type ℓ} {B : Type κ} → (A → B) → Option A → Option B
map_option f none = none
map_option f (some x) = some (f x)

module _ {R : Type 0} (key : R → String) where
  -- SELECT ... WHERE id = ?
  unfoldable pub row_of : String → List R → Option R
  row_of id [] = none
  row_of id (r ∷ rs) = if key r == id then some r else row_of id rs

  -- DELETE ... WHERE id = ?
  unfoldable pub delete_rows : String → List R → List R
  delete_rows id rs = filter (λ r. not (key r == id)) rs

  -- UPDATE ... SET ... WHERE id = ?
  unfoldable pub update_rows : String → (R → R) → List R → List R
  update_rows id set rs = map (λ r. if key r == id then set r else r) rs

  pub row_of-append :
      (id : String) (rs : List R) (r : R)
      → row_of id (rs ++ r ∷ []) ≡ or_first (row_of id rs) (if key r == id then some r else none)
  unfolding row_of
  row_of-append id [] r = refl
  row_of-append id (q ∷ rs) r = ground (arith, row_of-append id rs r)

  pub row_of-delete_rows :
      (id k : String) (rs : List R)
      → row_of k (delete_rows id rs) ≡ (if id == k then none else row_of k rs)
  unfolding row_of delete_rows
  row_of-delete_rows id k [] = ground arith
  row_of-delete_rows id k (q ∷ rs) =
      ground (arith, row_of-delete_rows id k rs, eq_iff (key q) id, eq_iff (key q) k, eq_iff id k)

  pub row_of-update_rows :
      (id k : String) (set : R → R) (rs : List R)
      → ((r : R) → key (set r) ≡ key r)
      → row_of k (update_rows id set rs)
        ≡ (if id == k then map_option set (row_of k rs) else row_of k rs)
  unfolding row_of update_rows
  row_of-update_rows id k set [] keep = ground arith
  row_of-update_rows id k set (q ∷ rs) keep = ground (
    arith,
    row_of-update_rows id k set rs keep,
    keep q,
    eq_iff (key q) id,
    eq_iff (key q) k,
    eq_iff id k,
    eq_iff (key (set q)) k,
  )

  pub row_of-key : (id : String) (rs : List R) (r : R) → row_of id rs ≡ some r → key r ≡ id
  unfolding row_of
  row_of-key id [] r e = ground arith
  row_of-key id (q ∷ rs) r e = ground (arith, row_of-key id rs r, eq_iff (key q) id)

  pub row_of-map :
      (k : String) (f : R → R) (rs : List R)
      → ((r : R) → key (f r) ≡ key r)
      → row_of k (map f rs) ≡ map_option f (row_of k rs)
  unfolding row_of
  row_of-map k f [] keep = refl
  row_of-map k f (q ∷ rs) keep = ground (arith, row_of-map k f rs keep, keep q)
