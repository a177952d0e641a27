-- ===== src/Config/Validator/Checks.antt =====
-- Each group of checks of internal/infrastructure/config/validator.go reports nothing exactly when
-- the values are as they should be.
use alert_bridge.Base.{
  ◌≤◌, String, ◌≡◌, ◌≢◌, ◌↔◌, ◌⊎◌, refl, Bool, true, false, List, [], ◌∷◌, ◌++◌, ◌==◌,
  if◌then◌else◌, eq_iff, arith,
}
use alert_bridge.Base.Int.{ℤ, pos, negsuc, ltb_ℤ, leb_ℤ, ◌<ℤ◌, ltb_ℤ_iff}
use alert_bridge.Config.Validator.{
  check, only_if, validate_log_level, validate_log_format, validate_non_empty, validate_duration,
  validate_port, validate_storage_type,
}

append-nil_iff : (xs ys : List String) → (xs ++ ys ≡ []) ↔ (xs ≡ []) × (ys ≡ [])
append-nil_iff [] ys = ground arith
append-nil_iff (x ∷ xs) ys = ground arith

infixr 30 ◌and◌
-- A conjunction that nests to the right.
abbrev pub ◌and◌ : Type 0 → Type 0 → Type 0
P and Q = P × Q

-- The laws that put the groups together.
infixr 30 ◌&◌
pub ◌&◌ :
    {xs ys : List String} {P Q : Type 0}
    → ((xs ≡ []) ↔ P)
    → ((ys ≡ []) ↔ Q)
    → (xs ++ ys ≡ []) ↔ P and Q
◌&◌ {xs = xs} {ys = ys} f g = (
  λ e. let (p, q) = (append-nil_iff xs ys).0 e in (f.0 p, g.0 q),
  λ h. (append-nil_iff xs ys).1 (f.1 h.0, g.1 h.1),
)

pub only_if_iff :
    (b : Bool) {es : List String} {P : Type 0}
    → ((es ≡ []) ↔ P)
    → (only_if b es ≡ []) ↔ (b ≡ true → P)
unfolding only_if
only_if_iff true f = (λ e _. f.0 e, λ h. f.1 (h refl))
only_if_iff false f = (λ e c. cc, λ h. refl)

pub only_if-eq_iff :
    (s t : String) {es : List String} {P : Type 0}
    → ((es ≡ []) ↔ P)
    → (only_if (s == t) es ≡ []) ↔ (s ≡ t → P)
only_if-eq_iff s t f =
    let g = only_if_iff (s == t) f in
    (λ e c. g.0 e ((eq_iff s t).1 c), λ h. g.1 (λ c. h ((eq_iff s t).0 c)))

pub branch_iff :
    (b : Bool) {xs ys : List String} {P Q : Type 0}
    → ((xs ≡ []) ↔ P)
    → ((ys ≡ []) ↔ Q)
    → ((if b then xs else ys) ≡ []) ↔ (b ≡ true → P) × (b ≡ false → Q)
branch_iff true f g = (λ e. (λ _. f.0 e, λ c. cc), λ h. f.1 (h.0 refl))
branch_iff false f g = (λ e. (λ c. cc, λ _. g.0 e), λ h. g.1 (h.1 refl))

abbrev pub IsPort : ℤ → Type 0
IsPort (pos n) = (1 ≤ n) × (n ≤ 65535)
IsPort (negsuc n) = ⊥

pub validate_port_iff : (p : ℤ) (f : String) → (validate_port p f ≡ []) ↔ IsPort p
unfolding validate_port check
validate_port_iff (pos n) f = ground arith
validate_port_iff (negsuc n) f = ground arith

pub validate_duration_iff : (d : ℤ) (f : String) → (validate_duration d f ≡ []) ↔ (pos 0 <ℤ d)
unfolding validate_duration check
validate_duration_iff (pos n) f = ground arith
validate_duration_iff (negsuc n) f = ground arith

pub validate_non_empty_iff : (v f : String) → (validate_non_empty v f ≡ []) ↔ (v ≢ "")
unfolding validate_non_empty check
validate_non_empty_iff v f = ground (arith, eq_iff v "")

pub check_le_iff : (a b : ℤ) (m : String) → (check (leb_ℤ a b) m ≡ []) ↔ (b <ℤ a)
unfolding check
check_le_iff a b m = ground (arith, ltb_ℤ_iff b a)

pub check_lt_iff : (a b : ℤ) (m : String) → (check (ltb_ℤ a b) m ≡ []) ↔ ((a <ℤ b) → ⊥)
unfolding check
check_lt_iff a b m = ground (arith, ltb_ℤ_iff a b)

abbrev pub IsLogLevel : String → Type 0
IsLogLevel s = (s ≡ "debug") ⊎ (s ≡ "info") ⊎ (s ≡ "warn") ⊎ (s ≡ "error")

pub validate_log_level_iff : (l : String) → (validate_log_level l ≡ []) ↔ IsLogLevel l
unfolding validate_log_level check
validate_log_level_iff l =
    ground (arith, eq_iff l "debug", eq_iff l "info", eq_iff l "warn", eq_iff l "error")

abbrev pub IsLogFormat : String → Type 0
IsLogFormat s = (s ≡ "json") ⊎ (s ≡ "text")

pub validate_log_format_iff : (f : String) → (validate_log_format f ≡ []) ↔ IsLogFormat f
unfolding validate_log_format check
validate_log_format_iff f = ground (arith, eq_iff f "json", eq_iff f "text")

abbrev pub IsStorageType : String → Type 0
IsStorageType s = (s ≡ "memory") ⊎ (s ≡ "sqlite") ⊎ (s ≡ "mysql")

pub validate_storage_type_iff : (t : String) → (validate_storage_type t ≡ []) ↔ IsStorageType t
unfolding validate_storage_type check
validate_storage_type_iff t = ground (arith, eq_iff t "memory", eq_iff t "sqlite", eq_iff t "mysql")
