-- ===== src/UseCase/PagerDutyWebhook/Found.antt =====
-- Which alert an event of PagerDuty is about.
use alert_bridge.Base.{
  String, ◌≡◌, refl, ◌≢◌, ◌⊎◌, inl, inr, true, false, none, some, List, [], ◌∷◌, ◌==◌, In,
  Bool-cases, Option-cases, eq_iff,
}
use alert_bridge.Base.Assoc.{lookup}
use alert_bridge.Errors.{ok}
use alert_bridge.Entity.Alert.{Alert, is_firing}
use alert_bridge.Memory.AlertRepository
use alert_bridge.Memory.AlertRepository.Fingerprints.{IsIndexed}
use alert_bridge.Memory.AlertRepository.Fingerprints.Search.{find_by_fingerprint_iff}
use alert_bridge.UseCase.MemoryStores.{Stores, memory_alert_store}
use alert_bridge.UseCase.PagerDutyWebhook.{
  HandleWebhookUseCase, prefer_firing, first_of, find_by_key, find_alert_by_incident_key,
}
use alert_bridge.UseCase.ProcessAlert.{find_firing_alert}
use alert_bridge.UseCase.ProcessAlert.Dedup.{find_firing_alert-none, find_firing_alert-some}
use alert_bridge.UseCase.World.{World}

abbrev pub in_memory : HandleWebhookUseCase Stores → HandleWebhookUseCase Stores
in_memory uc = record uc { alert_repo = memory_alert_store }

-- `a` is stored under the fingerprint `key`.
abbrev pub Stored : String → Alert → World Stores → Type 0
Stored key a w = (lookup a.id w.store.alerts.alerts ≡ some a) × (a.fingerprint ≡ key)

In-empty : (a : Alert) (xs : List Alert) → xs ≡ [] → In a xs → ⊥
In-empty a [] e i = i
In-empty a (x ∷ xs) e i = cc

no_firing_cases :
    (alerts : List Alert)
    → find_firing_alert alerts ≡ none
    → ((prefer_firing alerts ≡ none) × (alerts ≡ []))
      ⊎ ((a : Alert) × (prefer_firing alerts ≡ some a)
          × In a alerts
          × ((is_firing a ≡ true) ⊎ (find_firing_alert alerts ≡ none)))
unfolding prefer_firing
no_firing_cases [] n = inl (refl, refl)
no_firing_cases (a ∷ alerts) n = inr (a, rw (n, prefer_firing, first_of) refl, inl refl, inr n)

prefer_firing_cases :
    (alerts : List Alert)
    → ((prefer_firing alerts ≡ none) × (alerts ≡ []))
      ⊎ ((a : Alert) × (prefer_firing alerts ≡ some a)
          × In a alerts
          × ((is_firing a ≡ true) ⊎ (find_firing_alert alerts ≡ none)))
unfolding prefer_firing
prefer_firing_cases alerts = elim (Option-cases (find_firing_alert alerts)) [
  | inl n ↦ no_firing_cases alerts n
  | inr (a, e) ↦
      let (i, f) = find_firing_alert-some alerts a e in
      inr (a, rw (e, prefer_firing) refl, i, inl f)
]

-- An event without an incident id, over the in-memory repositories: no alert is found exactly if
-- none with the key as its fingerprint is stored. Otherwise a stored alert with that fingerprint is
-- found, a firing one if there is one. The search changes nothing.
pub find_alert_by_incident_key_lem :
    (uc : HandleWebhookUseCase Stores) (key : String) (w : World Stores)
    → IsIndexed w.store.alerts
    → key ≢ ""
    → ((find_alert_by_incident_key (in_memory uc) key "" w ≡ (ok none, w))
        × ((a : Alert) → ¬ Stored key a w))
      ⊎ ((a : Alert) × (find_alert_by_incident_key (in_memory uc) key "" w ≡ (ok (some a), w))
          × Stored key a w
          × ((is_firing a ≡ true) ⊎ ((b : Alert) → Stored key b w → is_firing b ≡ false)))
unfolding find_alert_by_incident_key find_by_key
find_alert_by_incident_key_lem uc key w v n =
    let found = AlertRepository.find_by_fingerprint key w.store.alerts in
    let iff = λ (a : Alert). find_by_fingerprint_iff key a w.store.alerts v in
    elim (Bool-cases (key == "")) [
      | inl c ↦ absurd (n ((eq_iff key "").0 c))
      | inr c ↦ elim (prefer_firing_cases found) [
        | inl (e, q) ↦ inl (rw (c, e) refl, λ a s. In-empty a found q ((iff a).1 s))
        | inr (a, e, i, inl f) ↦ inr (a, rw (c, e) refl, (iff a).0 i, inl f)
        | inr (a, e, i, inr q) ↦ inr (
          a,
          rw (c, e) refl,
          (iff a).0 i,
          inr (λ b s. find_firing_alert-none found b q ((iff b).1 s)),
        )
      ]
    ]
