-- ===== src/Entity/SilenceMark/Phases.antt =====
-- The time line of a silence: pending, active, expired; cancelled and extended.
use alert_bridge.Base.{
  ℕ, zero, suc, ◌+◌, ◌≤◌, ◌<◌, String, ◌≡◌, refl, ◌↔◌, ◌⊎◌, inl, inr, true, false, arith,
}
use alert_bridge.Base.Int.{pos}
use alert_bridge.Errors.{ok, err, sentinel, invalid_silence_duration}
use alert_bridge.Entity.AckEvent.{AckSource}
use alert_bridge.Entity.SilenceMark.{
  SilenceMark, new_silence_mark, is_active, is_expired, is_pending, remaining_duration, cancel,
  extend,
}

-- Exactly one of the three, but for the two instants at which the silence starts and ends.
abbrev pub Phase : ℕ → SilenceMark → Type 0
Phase now s =
    ((is_pending now s ≡ true) × (is_active now s ≡ false) × (is_expired now s ≡ false))
    ⊎ ((is_pending now s ≡ false) × (is_active now s ≡ true) × (is_expired now s ≡ false))
    ⊎ ((is_pending now s ≡ false) × (is_active now s ≡ false) × (is_expired now s ≡ true))
    ⊎ (((now ≡ s.start_at) ⊎ (now ≡ s.end_at))
        × (is_pending now s ≡ false)
        × (is_active now s ≡ false)
        × (is_expired now s ≡ false))

-- Of a silence that does not end before it starts, exactly one of pending, active and expired
-- holds at any time, except at the two instants where it starts and ends: there none holds.
pub one-Phase : (now : ℕ) (s : SilenceMark) → s.start_at ≤ s.end_at → Phase now s
unfolding is_pending is_active is_expired
one-Phase now s h = grind arith

-- A new silence is refused unless its duration is positive; otherwise it is active exactly
-- strictly between the time of its making and that time plus the duration.
pub new_silence-is_active :
    (id : String) (now n : ℕ) (by email : String) (source : AckSource) (t : ℕ)
    → ((n ≡ 0)
        × (new_silence_mark id now (pos n) by email source
            ≡ err (sentinel invalid_silence_duration)))
      ⊎ ((s : SilenceMark) × (new_silence_mark id now (pos n) by email source ≡ ok s)
          × ((is_active t s ≡ true) ↔ ((now < t) × (t < now + n))))
unfolding new_silence_mark is_active
new_silence-is_active id now zero by email source t = inl (refl, refl)
new_silence-is_active id now (suc n) by email source t = inr (_, refl, (ground arith, ground arith))

-- From the time of its cancellation on, a silence is not active and nothing of it remains.
pub cancel_ends :
    (now t : ℕ) (s : SilenceMark)
    → now ≤ t
    → (is_active t (cancel now s) ≡ false) × (remaining_duration t (cancel now s) ≡ 0)
unfolding is_active cancel remaining_duration
cancel_ends now t s h = ground arith

-- Extending a silence that has not ended adds exactly the duration to what remains, and takes
-- away no instant at which it is active; it starts when it did.
pub extend-remaining_duration :
    (n t : ℕ) (s : SilenceMark) {s' : SilenceMark}
    → extend (pos n) s ≡ ok s'
    → t ≤ s.end_at
    → (remaining_duration t s' ≡ remaining_duration t s + n)
      × (is_active t s ≡ true → is_active t s' ≡ true)
      × (s'.start_at ≡ s.start_at)
unfolding extend remaining_duration is_active
extend-remaining_duration n t s e h = ground arith
