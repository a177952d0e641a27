-- ===== src/Config/Reload/Interleavings.antt =====
-- Reloads that run at the same time: TryReload of internal/infrastructure/config/reload.go compares
-- under the read lock and swaps under the lock, and other reloads may come in between.
use alert_bridge.Base.{◌≡◌, List, [], ◌∷◌, ◌++◌}
use mathlib.Core.Path.{subst}
use alert_bridge.Errors.{ok}
use alert_bridge.Config.Types.{Config}
use alert_bridge.Config.Load.{Machine, load, load-IsValid}
use alert_bridge.Config.Validator.Valid.{IsValid}
use alert_bridge.Config.Reload.{ConfigManager, swap, detect_static_changes}
use alert_bridge.Config.Reload.Equality.{
  SameStatic, SameStatic-refl, SameStatic-trans, detect_static_changes_iff,
}

-- The manager, and the configurations of the calls that have compared and have not swapped yet.
pub record Running : Type 0 where
  pub manager : ConfigManager
  pub compared : List Config

-- A call loads and compares; a call that has compared swaps. A call that fails leaves the state.
pub data Step : Running → Running → Type 0 where
  compares :
      (m : Machine) (new : Config) (r : Running)
      → load m r.manager.config_path ≡ ok new
      → detect_static_changes r.manager.config new ≡ []
      → Step r (record r { compared = new ∷ r.compared })
  swaps :
      (new : Config) (front back : List Config) (r : Running)
      → r.compared ≡ front ++ new ∷ back
      → Step r (record { manager = swap new r.manager; compared = front ++ back })

pub data Reach (s : Running) : Running → Type 0 where
  here : Reach s s
  next : {t u : Running} → Reach s t → Step t u → Reach s u

-- A configuration that may stand in for the first one.
pub record Stands (first c : Config) : Type 0 where
  pub valid : IsValid c
  pub static : SameStatic first c

abbrev AllStand : Config → List Config → Type 0
AllStand first [] = Unit
AllStand first (c ∷ cs) = Stands first c × AllStand first cs

AllStand-without :
    (first new : Config) (front back : List Config)
    → AllStand first (front ++ new ∷ back)
    → Stands first new × AllStand first (front ++ back)
AllStand-without first new [] back h = h
AllStand-without first new (c ∷ front) back h =
    let (s, rest) = AllStand-without first new front back h.1 in (s, (h.0, rest))

pub record IsSound (first : Config) (r : Running) : Type 0 where
  pub current : Stands first r.manager.config
  pub waiting : AllStand first r.compared

Step-IsSound : {first : Config} {r s : Running} → Step r s → IsSound first r → IsSound first s
Step-IsSound {first = first} (compares m new r e d) v =
    let same = (detect_static_changes_iff r.manager.config new).0 d in
    record {
      current = v.current;
      waiting = (
        record {
          valid = load-IsValid m r.manager.config_path new e;
          static = SameStatic-trans _ _ _ v.current.static same;
        },
        v.waiting,
      );
    }
Step-IsSound {first = first} (swaps new front back r e) v =
    let (s, rest) = AllStand-without first new front back (subst (AllStand first) e v.waiting) in
    record { current = s; waiting = rest }

Reach-IsSound :
    {r s : Running} → IsSound r.manager.config r → Reach r s → IsSound r.manager.config s
Reach-IsSound v here = v
Reach-IsSound v (next p st) = Step-IsSound st (Reach-IsSound v p)

-- However reloads interleave, whatever the file and the environment say at each of them, the
-- configuration of a manager that starts with a valid one stays valid, and its port, its storage,
-- the path and the MySQL section stay those that the process started with.
pub Reach-keeps_static :
    (cm : ConfigManager) (s : Running)
    → IsValid cm.config
    → Reach (record { manager = cm; compared = [] }) s
    → IsValid s.manager.config × SameStatic cm.config s.manager.config
Reach-keeps_static cm s v p =
    let sound =
      Reach-IsSound
        (record {
          current = record { valid = v; static = SameStatic-refl cm.config };
          waiting = tt;
        })
        p in
    (sound.current.valid, sound.current.static)
