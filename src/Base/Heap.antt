-- ===== src/Base/Heap.antt =====
-- Go maps that several values share, by address. `none` as an address is the nil map, which
-- reads as the empty map.
use Prim.Native.Nat.{ℕ, suc}
use Prim.Native.String.{String}
use mathlib.Core.Path.{◌≡◌, refl}
use mathlib.Core.Option.{Option, none, some}
use mathlib.Core.List.{[]}
use native.Mathlib.Omega.{arith}
use alert_bridge.Base.Tests.{if◌then◌else◌, same_address}
use alert_bridge.Base.Assoc.{Map}

-- The addresses from `next` on are free.
pub record Heap : Type 0 where
  pub next : ℕ
  pub cells : ℕ → Map String

unfoldable pub read : Heap → Option ℕ → Map String
read h none = []
read h (some p) = h.cells p

unfoldable pub write : ℕ → Map String → Heap → Heap
write p m h = record h { cells = λ q. if same_address p q then m else h.cells q }

-- make(map[string]string)
unfoldable pub make : Heap → ℕ × Heap
make h = (
  h.next,
  record { next = suc h.next; cells = λ q. if same_address h.next q then [] else h.cells q },
)

pub read-write :
    (p q : ℕ) (m : Map String) (h : Heap)
    → read (write p m h) (some q) ≡ (if same_address p q then m else read h (some q))
unfolding read write
read-write p q m h = refl

pub read-make : (h : Heap) → read (make h).1 (some (make h).0) ≡ []
unfolding read make
read-make h = ground arith
