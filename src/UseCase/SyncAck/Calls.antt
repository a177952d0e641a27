-- ===== src/UseCase/SyncAck/Calls.antt =====
-- What the loop over the syncers calls and reports.
use mathlib.Core.List.{append-nil, append_assoc}
use alert_bridge.Base.{
  true, false, ◌≢◌, ◌↔◌, eq_iff, arith, String, ◌≡◌, refl, sym, ◌∙◌, inl, inr, List, [], ◌∷◌, ◌++◌,
  Bool-cases,
}
use alert_bridge.Base.Assoc.{get_or}
use alert_bridge.Base.Heap.{Heap, read}
use alert_bridge.Errors.{Error, Result, ok, err}
use alert_bridge.Entity.Alert.{Alert, has_external_reference, get_external_reference}
use alert_bridge.Entity.AckEvent.{AckEvent, AckSource, source_text}
use alert_bridge.UseCase.Notify.Sending.{Result-cases}
use alert_bridge.UseCase.SyncAck.{
  AckSyncer, SyncAckOutput, should_sync, sync_failed, sync_done, sync_to_external_systems,
}
use alert_bridge.UseCase.World.{World, Effect, acknowledged_at}

-- The calls to the syncers, in their order, on top of the calls before.
abbrev pub recorded : List AckSyncer → Alert → AckEvent → List Effect → List Effect
recorded [] a event sent = sent
recorded (s ∷ ss) a event sent = recorded ss a event (acknowledged_at s.name a event ∷ sent)

-- A syncer that is to hear of an acknowledgement from `source`.
abbrev pub IsDue : AckSource → Heap → Alert → AckSyncer → Type 0
IsDue source h a s =
    (s.supports_ack ≡ true)
    × (s.name ≢ source_text source)
    × (get_or "" s.name (read h a.external_references) ≢ "")

-- `ts` is what is left of `ss` when all that do not meet P are taken out.
pub data Selected (P : AckSyncer → Type 0) : List AckSyncer → List AckSyncer → Type 0 where
  nothing : Selected P [] []
  chosen :
      {s : AckSyncer} {ss ts : List AckSyncer}
      → P s
      → Selected P ss ts
      → Selected P (s ∷ ss) (s ∷ ts)
  passed :
      {s : AckSyncer} {ss ts : List AckSyncer}
      → (P s → ⊥)
      → Selected P ss ts
      → Selected P (s ∷ ss) ts

abbrev name_if_ok : Result (Unit {0}) → String → List String → List String
name_if_ok (ok u) name names = name ∷ names
name_if_ok (err e) name names = names

abbrev error_if_any : Result (Unit {0}) → String → List (String × Error) → List (String × Error)
error_if_any (ok u) name es = es
error_if_any (err e) name es = (name, e) ∷ es

module _ (a : Alert) (event : AckEvent) where
  -- The names of those that accept the acknowledgement, when they are asked one after the other.
  abbrev pub accepted : List AckSyncer → List Effect → List String
  accepted [] sent = []
  accepted (s ∷ ss) sent =
      name_if_ok (s.acknowledge sent a event) s.name
        (accepted ss (acknowledged_at s.name a event ∷ sent))

  -- The others, each with its error.
  abbrev pub refused : List AckSyncer → List Effect → List (String × Error)
  refused [] sent = []
  refused (s ∷ ss) sent =
      error_if_any (s.acknowledge sent a event) s.name
        (refused ss (acknowledged_at s.name a event ∷ sent))

  -- What the loop over `ss` does: whom it asks, in which order, and what it reports of the answers.
  pub record Synced (source : AckSource) (h : Heap) (ss : List AckSyncer) (sent sent' : List Effect)
      (out out' : SyncAckOutput) : Type 0 where
    pub asked : List AckSyncer
    pub selected : Selected (IsDue source h a) ss asked
    pub sent_after : sent' ≡ recorded asked a event sent
    pub synced_after : out'.synced_to ≡ out.synced_to ++ accepted asked sent
    pub errors_after : out'.sync_errors ≡ out.sync_errors ++ refused asked sent
    pub same_alert : out'.alert ≡ out.alert
    pub same_event : out'.ack_event ≡ out.ack_event

should_sync_iff :
    (source : AckSource) (h : Heap) (a : Alert) (s : AckSyncer)
    → (should_sync source h a s ≡ true) ↔ IsDue source h a s
unfolding should_sync has_external_reference get_external_reference
should_sync_iff source h a s = ground (
  arith,
  eq_iff s.name (source_text source),
  eq_iff (get_or "" s.name (read h a.external_references)) "",
)

not_due :
    (source : AckSource) (h : Heap) (a : Alert) (s : AckSyncer)
    → should_sync source h a s ≡ false
    → IsDue source h a s
    → ⊥
not_due source h a s e d = ground (arith, e, (should_sync_iff source h a s).1 d)

module _ (a : Alert) (event : AckEvent) (source : AckSource) (h : Heap) where
  Synced-none :
      (sent : List Effect) (out : SyncAckOutput) → Synced a event source h [] sent sent out out
  Synced-none sent out = record {
    asked = [];
    selected = nothing;
    sent_after = refl;
    synced_after = sym (append-nil out.synced_to);
    errors_after = sym (append-nil out.sync_errors);
    same_alert = refl;
    same_event = refl;
  }

  module _ (s : AckSyncer) (ss : List AckSyncer) (sent sent' : List Effect)
      (out out' : SyncAckOutput) where
    Synced-passed :
        (IsDue source h a s → ⊥)
        → Synced a event source h ss sent sent' out out'
        → Synced a event source h (s ∷ ss) sent sent' out out'
    Synced-passed n r = record {
      asked = r.asked;
      selected = passed n r.selected;
      sent_after = r.sent_after;
      synced_after = r.synced_after;
      errors_after = r.errors_after;
      same_alert = r.same_alert;
      same_event = r.same_event;
    }

    Synced-accepted :
        (u : Unit {0})
        → IsDue source h a s
        → s.acknowledge sent a event ≡ ok u
        → Synced a event source h ss
            (acknowledged_at s.name a event ∷ sent)
            sent'
            (sync_done out s.name)
            out'
        → Synced a event source h (s ∷ ss) sent sent' out out'
    Synced-accepted u d e r = record {
      asked = s ∷ r.asked;
      selected = chosen d r.selected;
      sent_after = r.sent_after;
      synced_after = rw e (
          r.synced_after
          ∙ append_assoc out.synced_to (s.name ∷ [])
              (accepted a event r.asked (acknowledged_at s.name a event ∷ sent)));
      errors_after = rw e r.errors_after;
      same_alert = r.same_alert;
      same_event = r.same_event;
    }

    Synced-refused :
        (x : Error)
        → IsDue source h a s
        → s.acknowledge sent a event ≡ err x
        → Synced a event source h ss
            (acknowledged_at s.name a event ∷ sent)
            sent'
            (sync_failed out s.name x)
            out'
        → Synced a event source h (s ∷ ss) sent sent' out out'
    Synced-refused x d e r = record {
      asked = s ∷ r.asked;
      selected = chosen d r.selected;
      sent_after = r.sent_after;
      synced_after = rw e r.synced_after;
      errors_after = rw e (
          r.errors_after
          ∙ append_assoc out.sync_errors ((s.name, x) ∷ [])
              (refused a event r.asked (acknowledged_at s.name a event ∷ sent)));
      same_alert = r.same_alert;
      same_event = r.same_event;
    }

module _ {S : Type 0} where
  -- The loop never fails. It asks exactly the syncers that support acknowledgement, do not have the
  -- name of the source and have a reference to the alert that is not empty, each once and in order.
  -- It reports those that accept as synced and the others with the errors that they answer, keeps
  -- the alert and the event, and leaves the store as it was.
  pub sync_to_external_systems-calls :
      (ss : List AckSyncer) (a : Alert) (event : AckEvent) (source : AckSource)
      (out : SyncAckOutput) (w : World S)
      → (out' : SyncAckOutput) × ((sync_to_external_systems ss a event source out w).0 ≡ ok out')
        × Synced a event source w.heap ss w.sent
            (sync_to_external_systems ss a event source out w).1.sent
            out
            out'
        × ((sync_to_external_systems ss a event source out w).1.store ≡ w.store)
  unfolding sync_to_external_systems
  sync_to_external_systems-calls [] a event source out w =
      (out, refl, Synced-none a event source w.heap w.sent out, refl)
  sync_to_external_systems-calls (s ∷ ss) a event source out w =
      let w1 = record w { sent = acknowledged_at s.name a event ∷ w.sent } in
      elim (Bool-cases (should_sync source w.heap a s)) [
        | inl c ↦
            let due = (should_sync_iff source w.heap a s).0 c in
            elim (Result-cases (s.acknowledge w.sent a event)) [
              | inl (u, e) ↦
                  let (out', p, r, k) =
                    sync_to_external_systems-calls ss a event source (sync_done out s.name) w1 in
                  rw (c, e)
                    (out', p, Synced-accepted a event source w.heap s ss _ _ out out' u due e r, k)
              | inr (x, e) ↦
                  let (out', p, r, k) =
                    sync_to_external_systems-calls ss a event source (sync_failed out s.name x)
                      w1 in
                  rw (c, e)
                    (out', p, Synced-refused a event source w.heap s ss _ _ out out' x due e r, k)
            ]
        | inr c ↦
            let (out', p, r, k) = sync_to_external_systems-calls ss a event source out w in
            rw c (
              out',
              p,
              Synced-passed a event source w.heap s ss _ _ out out' (not_due source w.heap a s c) r,
              k,
            )
      ]
