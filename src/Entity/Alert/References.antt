-- ===== src/Entity/Alert/References.antt =====
-- External references through the shared map.
use alert_bridge.Base.{ℕ, String, ◌≡◌, [], ==-refl, some, arith, ◌==◌, if◌then◌else◌}
use alert_bridge.Base.Assoc.{get_or-insert}
use alert_bridge.Base.Heap.{Heap, read}
use alert_bridge.Entity.Alert.{Alert, set_external_reference, get_external_reference}

-- A reference that is set is the one that is read back; the references to other systems stay.
pub get-set_external_reference :
    (system other reference : String) (now : ℕ) (a : Alert) (h : Heap)
    → get_external_reference other
        (set_external_reference system reference now a h).1
        (set_external_reference system reference now a h).0
      ≡ (if system == other then reference else get_external_reference other h a)
unfolding get_external_reference set_external_reference
get-set_external_reference system other reference now a h = ground (
  arith,
  get_or-insert "" system other reference (read h a.external_references),
  get_or-insert "" system other reference [],
)

-- The write goes through the address: another alert with the same map reads the new reference too.
pub set_external_reference-shares :
    (system reference : String) (now p : ℕ) (a b : Alert) (h : Heap)
    → a.external_references ≡ some p
    → b.external_references ≡ some p
    → get_external_reference system (set_external_reference system reference now a h).1 b
      ≡ reference
unfolding get_external_reference set_external_reference
set_external_reference-shares system reference now p a b h ea eb =
    ground (arith, get_or-insert "" system system reference (h.cells p), ==-refl system)
