-- ===== src/Config/Reload/Outcome.antt =====
-- internal/infrastructure/config/reload.go, TryReload, and internal/adapter/handler/reload.go, which
-- answers POST /-/reload.
use alert_bridge.Base.{
  ℕ, String, ◌≡◌, refl, ◌⊎◌, inl, inr, true, Option, none, some, List, [], ◌∷◌, ◌==◌, if◌then◌else◌,
  arith,
}
use alert_bridge.Errors.{Result, ok, err, wrapped}
use alert_bridge.Errors.Messages.{error_text}
use alert_bridge.UseCase.Slack.Durations.{◌+++◌}
use alert_bridge.Config.Types.{Config}
use alert_bridge.Config.Load.{Machine, load, load-IsValid}
use alert_bridge.Config.Validator.Valid.{IsValid}
use alert_bridge.Config.Reload.{
  ConfigManager, ReloadError, requires_restart, load_failed, admitted, reloaded,
  detect_static_changes, changed_keys, is_reloadable, try_reload,
}
use alert_bridge.Config.Reload.Equality.{SameStatic, detect_static_changes_iff}

-- A call that fails leaves the manager, and one that does not has the loaded configuration.
abbrev pub IsAtomic : Machine → ConfigManager → Option ReloadError × ConfigManager → Type 0
IsAtomic m cm (o, after) =
    ((e : ReloadError) × (o ≡ some e) × (after ≡ cm))
    ⊎ ((o ≡ none)
        × (load m cm.config_path ≡ ok after.config)
        × IsValid after.config
        × SameStatic cm.config after.config
        × (after.observed
            ≡ (if cm.on_reload_success then after.config ∷ cm.observed else cm.observed)))

admitted-IsAtomic :
    (m : Machine) (cm : ConfigManager) (new : Config) (changes : List String)
    → load m cm.config_path ≡ ok new
    → detect_static_changes cm.config new ≡ changes
    → IsAtomic m cm (admitted new changes cm)
admitted-IsAtomic m cm new [] l d = inr (
  refl,
  l,
  load-IsValid m cm.config_path new l,
  (detect_static_changes_iff cm.config new).0 d,
  refl,
)
admitted-IsAtomic m cm new (c ∷ cs) l d = inl (requires_restart, refl, refl)

reloaded-IsAtomic :
    (m : Machine) (cm : ConfigManager) (r : Result Config)
    → load m cm.config_path ≡ r
    → IsAtomic m cm (reloaded r cm)
reloaded-IsAtomic m cm (ok new) l =
    admitted-IsAtomic m cm new (detect_static_changes cm.config new) l refl
reloaded-IsAtomic m cm (err e) l = inl (load_failed (wrapped "parse failed" e), refl, refl)

-- TryReload either reports an error and leaves the configuration and the callback alone, or swaps in
-- the configuration that Load returns, which is valid and has the same port and storage, and calls
-- the callback with it if there is one.
pub try_reload-IsAtomic : (m : Machine) (cm : ConfigManager) → IsAtomic m cm (try_reload m cm)
unfolding try_reload
try_reload-IsAtomic m cm = reloaded-IsAtomic m cm (load m cm.config_path) refl

-- Every key that a reload logs as changed is one that IsReloadable accepts.
abbrev AllReloadable : List String → Type 0
AllReloadable [] = Unit
AllReloadable (k ∷ ks) = (is_reloadable k ≡ true) × AllReloadable ks

pub changed_keys-AllReloadable : (old new : Config) → AllReloadable (changed_keys old new)
unfolding changed_keys is_reloadable
changed_keys-AllReloadable old new = ground arith

pub record Response : Type 0 where
  pub status : ℕ
  pub body : String

abbrev answer : Option ReloadError → Response
answer none = record { status = 200; body = "Configuration reloaded successfully\n" }
answer (some requires_restart) = record {
  status = 200;
  body = "Configuration change requires restart\n";
}
answer (some (load_failed e)) = record {
  status = 500;
  body = "Configuration reload failed: " +++ error_text e +++ "\n";
}

-- (*ReloadHandler).ServeHTTP on a request with this method
unfoldable pub serve_reload : Machine → String → ConfigManager → Response × ConfigManager
serve_reload m method cm =
    if method == "POST"
    then (let (o, cm') = try_reload m cm in (answer o, cm'))
    else (record { status = 405; body = "Method not allowed\n" }, cm)
