-- ===== src/Bluez/Uuid/Tests.antt =====
-- UUIDs of the GATT specification in each width, and the theorems applied to them.
use Prim.Native.Nat.{compare}
use minipro.Base.{◌≡◌, arith, some, ◌==◌, if◌then◌else◌}
use minipro.Bluez.Uuid.{
  Uuid, unspec, uuid16, uuid32, uuid_cmp, uuid_number, IsUuid, uuid_to_le, le_to_uuid, uuid_type,
}
use minipro.Bluez.Uuid.Compare.{uuid_cmp-compare}
use minipro.Bluez.Uuid.Wire.{le_to_uuid-uuid_to_le}

abbrev battery : Uuid
battery = uuid16 0x180f

abbrev battery_wide : Uuid
battery_wide = uuid32 0x0000_180f

uuid_cmp-compare_example :
    uuid_cmp unspec unspec battery (uuid32 0x1_0000)
    ≡ compare (uuid_number battery) (uuid_number (uuid32 0x1_0000))
uuid_cmp-compare_example =
    uuid_cmp-compare unspec unspec battery (uuid32 0x1_0000) (omega arith) (omega arith)

le_to_uuid-uuid_to_le_example :
    (v : Uuid) × (le_to_uuid (uuid_to_le unspec battery_wide).0 ≡ some v)
    × (uuid_number v ≡ uuid_number battery_wide)
    × (uuid_type v ≡ (if uuid_type battery_wide == 16 then 16 else 128))
    × IsUuid v
le_to_uuid-uuid_to_le_example = le_to_uuid-uuid_to_le unspec battery_wide (omega arith)
