-- ===== src/Bluez/Uuid/Compare.antt =====
-- `bt_uuid_cmp` against the numbers that UUIDs stand for.
use Prim.Native.Nat.{compare}
use minipro.Base.{◌≡◌, arith, length, All}
use minipro.Base.Bytes.{IsByte}
use minipro.Bluez.Uuid.{
  Uuid, unspec, uuid16, uuid32, uuid128, uuid_to_uuid128, u128_bytes, uuid_cmp, IsUuid, uuid_number,
}
use minipro.Bluez.Uuid.Number.{memcmp-compare, expand-number}

-- The expansion of a UUID is 16 bytes.
pub expand-IsUuid :
    (u dst : Uuid)
    → IsUuid u
    → (length (u128_bytes (uuid_to_uuid128 u dst)) ≡ 16)
      × All IsByte (u128_bytes (uuid_to_uuid128 u dst))
unfolding uuid_to_uuid128
expand-IsUuid unspec dst h = absurd h
expand-IsUuid (uuid16 v) dst h = omega arith
expand-IsUuid (uuid32 v) dst h = omega arith
expand-IsUuid (uuid128 bs) dst h = h

-- `bt_uuid_cmp` orders any two specified UUIDs, of whatever widths, as the numbers that they stand for, and
-- does not depend on what its local variables held.
pub uuid_cmp-compare :
    (u1 u2 a b : Uuid)
    → IsUuid a
    → IsUuid b
    → uuid_cmp u1 u2 a b ≡ compare (uuid_number a) (uuid_number b)
unfolding uuid_cmp
uuid_cmp-compare u1 u2 a b ha hb = ground (
  arith,
  expand-IsUuid a u1 ha,
  expand-IsUuid b u2 hb,
  memcmp-compare (u128_bytes (uuid_to_uuid128 a u1)) (u128_bytes (uuid_to_uuid128 b u2)),
  expand-number a u1 ha,
  expand-number b u2 hb,
)
