-- ===== src/Memory/AlertRepository/Firing.antt =====
-- At most one firing alert for each fingerprint, in the repository.
use alert_bridge.Base.{
  String, ◌≡◌, refl, ap, ◌∙◌, ◌⊎◌, inl, inr, true, some, arith, eq_iff, ==-refl, ◌≢◌, Option-cases,
}
use alert_bridge.Base.Assoc.{lookup, insert, lookup-insert}
use alert_bridge.Base.Heap.{Heap}
use alert_bridge.Errors.{Error, ok, err, sentinel, duplicate_alert, alert_not_found}
use alert_bridge.Entity.Alert.{Alert, is_firing}
use alert_bridge.Memory.AlertRepository.{AlertRepository, save, update}
use alert_bridge.Memory.AlertRepository.Fingerprints.{IsIndexed}
use alert_bridge.Memory.AlertRepository.Fingerprints.Save.{save-IsIndexed}
use alert_bridge.Memory.AlertRepository.Fingerprints.Update.{update-IsIndexed}

-- The index is in order, and two firing alerts have different fingerprints.
pub record IsDeduplicated (r : AlertRepository) : Type 0 where
  pub indexed : IsIndexed r
  pub one_firing :
      (j k : String) (a b : Alert)
      → lookup j r.alerts ≡ some a
      → lookup k r.alerts ≡ some b
      → is_firing a ≡ true
      → is_firing b ≡ true
      → a.fingerprint ≡ b.fingerprint
      → j ≡ k

-- The stored alert of that id, if there is one, has the fingerprint and the state of `a`.
abbrev pub Agrees : Alert → AlertRepository → Type 0
Agrees a r =
    (b : Alert)
    → lookup a.id r.alerts ≡ some b
    → (b.fingerprint ≡ a.fingerprint) × (is_firing a ≡ true → is_firing b ≡ true)

inserted-one_firing :
    (a : Alert) (r s : AlertRepository)
    → s.alerts ≡ insert a.id a r.alerts
    → IsDeduplicated r
    → ((k : String) (b : Alert)
        → lookup k r.alerts ≡ some b
        → is_firing a ≡ true
        → is_firing b ≡ true
        → a.fingerprint ≡ b.fingerprint
        → a.id ≡ k)
    → (j k : String) (b c : Alert) → lookup j s.alerts ≡ some b
    → lookup k s.alerts ≡ some c
    → is_firing b ≡ true
    → is_firing c ≡ true
    → b.fingerprint ≡ c.fingerprint
    → j ≡ k
inserted-one_firing a r s e d alone j k b c lb lc fb fc q = ground (
  arith,
  lookup-insert a.id j a r.alerts,
  lookup-insert a.id k a r.alerts,
  eq_iff a.id j,
  eq_iff a.id k,
  alone j b,
  alone k c,
  d.one_firing j k b c,
  ap (lookup j) e,
  ap (lookup k) e,
)

stored-Agrees :
    (a b : Alert) (r s : AlertRepository)
    → s.alerts ≡ insert a.id b r.alerts
    → b.fingerprint ≡ a.fingerprint
    → b.state ≡ a.state
    → Agrees a s
unfolding is_firing
stored-Agrees a b r s e f g c l =
    ground (arith, ap (lookup a.id) e, lookup-insert a.id a.id b r.alerts, ==-refl a.id)

-- A save of an alert whose fingerprint no stored firing alert has.
pub save-IsDeduplicated :
    (h : Heap) (a : Alert) (r : AlertRepository)
    → IsDeduplicated r
    → ((k : String) (b : Alert)
        → lookup k r.alerts ≡ some b
        → is_firing b ≡ true
        → a.fingerprint ≢ b.fingerprint)
    → ((s : AlertRepository) × (save h a r ≡ ok s) × IsDeduplicated s × Agrees a s)
      ⊎ ((e : Error) × (save h a r ≡ err e))
save-IsDeduplicated h a r d quiet = elim (save-IsIndexed h a r d.indexed) [
  | inl (s, e, n, q, v) ↦ inl (
    s,
    e,
    record {
      indexed = v;
      one_firing = inserted-one_firing a r s q d (λ k b l fa fb f. absurd (quiet k b l fb f));
    },
    stored-Agrees a a r s q refl refl,
  )
  | inr (b, e) ↦ inr (sentinel duplicate_alert, e)
]

updated_alert :
    (h : Heap) (a : Alert) (r : AlertRepository)
    → IsDeduplicated r
    → Agrees a r
    → (c : Alert) → lookup a.id r.alerts ≡ some c
    → ((s : AlertRepository) × (update h a r ≡ ok s) × IsDeduplicated s × Agrees a s)
      ⊎ ((e : Error) × (update h a r ≡ err e))
updated_alert h a r d g c lc = elim (update-IsIndexed h a r d.indexed (λ b l. (g b l).0)) [
  | inl (s, e, q, v) ↦ inl (
    s,
    e,
    record {
      indexed = v;
      one_firing =
          inserted-one_firing a r s q d
            (λ k b l fa fb f. d.one_firing a.id k c b lc l ((g c lc).1 fa) fb ((g c lc).0 ∙ f));
    },
    stored-Agrees a a r s q refl refl,
  )
  | inr (b, e) ↦ inr (sentinel alert_not_found, e)
]

-- An update of an alert that agrees with the stored one.
pub update-IsDeduplicated :
    (h : Heap) (a : Alert) (r : AlertRepository)
    → IsDeduplicated r
    → Agrees a r
    → ((s : AlertRepository) × (update h a r ≡ ok s) × IsDeduplicated s × Agrees a s)
      ⊎ ((e : Error) × (update h a r ≡ err e))
unfolding update
update-IsDeduplicated h a r d g = elim (Option-cases (lookup a.id r.alerts)) [
  | inl n ↦ inr (sentinel alert_not_found, rw (n, update) refl)
  | inr (c, lc) ↦ updated_alert h a r d g c lc
]
