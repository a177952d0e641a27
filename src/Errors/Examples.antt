-- ===== src/Errors/Examples.antt =====
-- Tests and instances for the error classes.
use alert_bridge.Base.{◌≡◌, refl, true}
use alert_bridge.Errors.{sentinel, wrapped, duplicate_alert, is_conflict}

is_conflict_wrapped : is_conflict (wrapped "saving alert" (sentinel duplicate_alert)) ≡ true
unfolding is_conflict
is_conflict_wrapped = refl
