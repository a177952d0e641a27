-- ===== src/Base/Assoc.antt =====
-- Go's `map[string]V` as an association list with one entry for each key. A `range` over a map
-- visits the entries in no fixed order: a statement about every list speaks of every order.
use Prim.Native.String.{String}
use mathlib.Core.Path.{◌≡◌, refl, ap}
use mathlib.Core.Logic.{inl, inr}
use mathlib.Core.Bool.{true}
use mathlib.Core.Option.{Option, none, some}
use mathlib.Core.List.{List, [], ◌∷◌}
use native.Mathlib.Omega.{arith}
use text.Mathlib.Text.{◌==◌}
use text.Mathlib.TextEquality.{eq_iff}
use alert_bridge.Base.Tests.{if◌then◌else◌, Bool-cases, ==-refl}
use alert_bridge.Base.Lists.{In}

abbrev pub Map {ℓ} : Type ℓ → Type ℓ
Map V = List (String × V)

abbrev pub or_else {ℓ} : {V : Type ℓ} → Option V → V → V
or_else none d = d
or_else (some v) d = v

module _ {ℓ} {V : Type ℓ} where
  -- v, ok := m[key]
  unfoldable pub lookup : String → Map V → Option V
  lookup key [] = none
  lookup key ((held, value) ∷ rest) = if held == key then some value else lookup key rest

  -- delete(m, key)
  unfoldable pub delete : String → Map V → Map V
  delete key [] = []
  delete key ((held, value) ∷ rest) =
      let rest' = delete key rest in if held == key then rest' else (held, value) ∷ rest'

  -- m[key] = value; a new key comes last
  unfoldable pub insert : String → V → Map V → Map V
  insert key value [] = (key, value) ∷ []
  insert key value ((held, old) ∷ rest) =
      if held == key then (key, value) ∷ rest else (held, old) ∷ insert key value rest

  -- m[k], the zero value `d` where the key is missing
  unfoldable pub get_or : V → String → Map V → V
  unfolding lookup
  get_or d k m = or_else (lookup k m) d

  pub lookup-delete :
      (key sought : String) (m : Map V)
      → lookup sought (delete key m) ≡ (if key == sought then none else lookup sought m)
  unfolding lookup delete
  lookup-delete key sought [] = ground arith
  lookup-delete key sought ((held, old) ∷ rest) =
      ground (
        lookup-delete key sought rest,
        eq_iff held key,
        eq_iff held sought,
        eq_iff key sought,
        arith,
      )

  pub lookup-insert :
      (key sought : String) (value : V) (m : Map V)
      → lookup sought (insert key value m) ≡ (if key == sought then some value else lookup sought m)
  unfolding insert lookup
  lookup-insert key sought value [] = refl
  lookup-insert key sought value ((held, old) ∷ rest) = ground (
    lookup-insert key sought value rest,
    eq_iff held key,
    eq_iff held sought,
    eq_iff key sought,
    arith,
  )

  pub get_or-insert :
      (d : V) (k j : String) (v : V) (m : Map V)
      → get_or d j (insert k v m) ≡ (if k == j then v else get_or d j m)
  unfolding get_or
  get_or-insert d k j v m = ground (arith, lookup-insert k j v m)

  pub get_or-missing : (d : V) (k : String) (m : Map V) → lookup k m ≡ none → get_or d k m ≡ d
  unfolding get_or
  get_or-missing d k m e = ap (λ o. or_else o d) e

  pub get_or-present :
      (d : V) (k : String) (v : V) (m : Map V) → lookup k m ≡ some v → get_or d k m ≡ v
  unfolding get_or
  get_or-present d k v m e = ap (λ o. or_else o d) e

  -- Each key has one entry.
  abbrev pub IsKeyed : Map V → Type ℓ
  IsKeyed [] = Unit
  IsKeyed ((k, v) ∷ m) = (lookup k m ≡ none) × IsKeyed m

  pub insert-IsKeyed : (k : String) (v : V) (m : Map V) → IsKeyed m → IsKeyed (insert k v m)
  unfolding insert lookup
  insert-IsKeyed k v [] h = (refl, tt)
  insert-IsKeyed k v ((j, w) ∷ m) h =
      ground (arith, eq_iff j k, eq_iff k j, lookup-insert k j v m, insert-IsKeyed k v m h.1)

  pub delete-IsKeyed : (k : String) (m : Map V) → IsKeyed m → IsKeyed (delete k m)
  unfolding delete
  delete-IsKeyed k [] h = tt
  delete-IsKeyed k ((j, w) ∷ m) h = ground (arith, lookup-delete k j m, delete-IsKeyed k m h.1)

module _ {V : Type 0} where
  pub lookup_unique :
      (j k : String) (v w : V) (m : Map V)
      → (j == k) ≡ true
      → lookup j m ≡ some v
      → lookup k m ≡ some w
      → w ≡ v
  lookup_unique j k v w m e f g = ground (arith, eq_iff j k)

  -- The values, in the order of a `range`.
  abbrev pub values : Map V → List V
  values [] = []
  values ((k, v) ∷ m) = v ∷ values m

  pub In-lookup : (k : String) (v : V) (m : Map V) → lookup k m ≡ some v → In (k, v) m
  unfolding lookup
  In-lookup k v [] h = cc
  In-lookup k v ((j, w) ∷ m) h = elim (Bool-cases (j == k)) [
    | inl e ↦ inl (ground (arith, eq_iff j k))
    | inr e ↦ inr (In-lookup k v m (ground arith))
  ]

  pub lookup-In : (k : String) (v : V) (m : Map V) → IsKeyed m → In (k, v) m → lookup k m ≡ some v
  unfolding lookup
  lookup-In k v [] h i = absurd i
  lookup-In k v ((j, w) ∷ m) h (inl e) = ground (arith, eq_iff j k)
  lookup-In k v ((j, w) ∷ m) h (inr i) = ground (arith, eq_iff j k, lookup-In k v m h.1 i)

  pub lookup-values : (k : String) (v : V) (m : Map V) → lookup k m ≡ some v → In v (values m)
  unfolding lookup
  lookup-values k v [] h = cc
  lookup-values k v ((j, w) ∷ m) h = elim (Bool-cases (j == k)) [
    | inl e ↦ inl (ground arith)
    | inr e ↦ inr (lookup-values k v m (ground arith))
  ]

  pub values-lookup :
      (v : V) (m : Map V) → IsKeyed m → In v (values m) → (k : String) × (lookup k m ≡ some v)
  unfolding lookup
  values-lookup v [] h i = absurd i
  values-lookup v ((j, w) ∷ m) h (inl e) = (j, ground (arith, ==-refl j))
  values-lookup v ((j, w) ∷ m) h (inr i) =
      let (k, f) = values-lookup v m h.1 i in (k, ground (arith, eq_iff j k))
