-- ===== src/Bluez/Uuid.antt =====
-- `bt_uuid_t` of lib/bluez/uuid.h, the conversions and the comparison of lib/bluez/uuid.c, and the
-- little-endian wire form of lib/bluez/gatt-db.c.
pub mod Number
pub mod Compare
pub mod Wire
mod Tests
use Prim.Native.Nat.{compare, Ordering}
use mathlib.Core.List.{reverse}
use minipro.Base.{
  ℕ, ◌+◌, ◌*◌, ◌/◌, ◌^◌, ◌<◌, ◌≡◌, Bool, true, false, Option, none, some, List, [], ◌∷◌, ◌++◌, ◌==◌,
  if◌then◌else◌, length, take, drop, replicate, All,
}
use minipro.Base.Bytes.{IsByte, le16, be16, be32, from_le16}

-- The union is read through its tag, but for `u128_bytes`. `uint128_t` is its 16 bytes in order.
pub data Uuid : Type 0 where
  unspec : Uuid
  uuid16 uuid32 : ℕ → Uuid
  uuid128 : List ℕ → Uuid

-- the tag, as `enum` of `bt_uuid_t` numbers it
unfoldable pub uuid_type : Uuid → ℕ
uuid_type unspec = 0
uuid_type (uuid16 _) = 16
uuid_type (uuid32 _) = 32
uuid_type (uuid128 _) = 128

-- `bt_uuid_len`
unfoldable pub uuid_len : Uuid → ℕ
unfolding uuid_type
uuid_len u = uuid_type u / 8

abbrev pub bluetooth_base_uuid : List ℕ
bluetooth_base_uuid =
    0x00 ∷ 0x00 ∷ 0x00 ∷ 0x00 ∷ 0x00 ∷ 0x00 ∷ 0x10 ∷ 0x00 ∷ 0x80 ∷ 0x00 ∷ 0x00 ∷ 0x80 ∷ 0x5F ∷ 0x9B
    ∷ 0x34 ∷ 0xFB ∷ []

abbrev pub base_uuid16_offset : ℕ
base_uuid16_offset = 2

abbrev pub base_uuid32_offset : ℕ
base_uuid32_offset = 0

-- `memcpy(&dst[offset], src, length src)`
abbrev pub memcpy_at : List ℕ → ℕ → List ℕ → List ℕ
memcpy_at dst offset src = take offset dst ++ (src ++ drop (offset + length src) dst)

-- `bt_uuid16_to_uuid128`
unfoldable pub uuid16_to_uuid128 : ℕ → Uuid
uuid16_to_uuid128 v = uuid128 (memcpy_at bluetooth_base_uuid base_uuid16_offset (be16 v))

-- `bt_uuid32_to_uuid128`
unfoldable pub uuid32_to_uuid128 : ℕ → Uuid
uuid32_to_uuid128 v = uuid128 (memcpy_at bluetooth_base_uuid base_uuid32_offset (be32 v))

-- `bt_uuid_to_uuid128`: an unspecified source leaves `*dst` as it was.
unfoldable pub uuid_to_uuid128 : (src dst : Uuid) → Uuid
unfolding uuid16_to_uuid128 uuid32_to_uuid128
uuid_to_uuid128 (uuid128 bs) dst = uuid128 bs
uuid_to_uuid128 (uuid32 v) dst = uuid32_to_uuid128 v
uuid_to_uuid128 (uuid16 v) dst = uuid16_to_uuid128 v
uuid_to_uuid128 unspec dst = dst

-- `value.u128` read whatever the tag: the rest of the union is zero after `bt_uuid*_create`.
abbrev pub u128_bytes : Uuid → List ℕ
u128_bytes unspec = replicate 16 0
u128_bytes (uuid16 v) = le16 v ++ replicate 14 0
u128_bytes (uuid32 v) = reverse (be32 v) ++ replicate 12 0
u128_bytes (uuid128 bs) = bs

-- `memcmp` of two buffers of one size, as the sign of its result
unfoldable pub memcmp : List ℕ → List ℕ → Ordering
memcmp [] ys = Ordering.eq
memcmp (x ∷ xs) [] = Ordering.eq
memcmp (x ∷ xs) (y ∷ ys) = elim (compare x y) [
  | Ordering.lt ↦ Ordering.lt
  | Ordering.eq ↦ memcmp xs ys
  | Ordering.gt ↦ Ordering.gt
]

-- `bt_uuid128_cmp`
unfoldable pub uuid128_cmp : (u1 u2 : Uuid) → Ordering
unfolding memcmp
uuid128_cmp u1 u2 = memcmp (u128_bytes u1) (u128_bytes u2)

-- `bt_uuid_cmp`; `u1` and `u2` are its local variables before they are set.
unfoldable pub uuid_cmp : (u1 u2 : Uuid) → (a b : Uuid) → Ordering
unfolding uuid_to_uuid128 uuid128_cmp
uuid_cmp u1 u2 a b = uuid128_cmp (uuid_to_uuid128 a u1) (uuid_to_uuid128 b u2)

-- `bswap_128`
abbrev pub bswap_128 : List ℕ → List ℕ
bswap_128 = reverse

-- `bt_uuid_to_le`: the bytes written to `dst`, none for -EINVAL
unfoldable pub bt_uuid_to_le : Uuid → Option (List ℕ)
unfolding uuid32_to_uuid128
bt_uuid_to_le (uuid16 v) = some (le16 v)
bt_uuid_to_le (uuid32 v) = some (bswap_128 (u128_bytes (uuid32_to_uuid128 v)))
bt_uuid_to_le (uuid128 bs) = some (bswap_128 bs)
bt_uuid_to_le unspec = none

-- `uuid_to_le` of gatt-db.c: the bytes and the length that it returns. `uuid128` is its local.
unfoldable pub uuid_to_le : (uuid128 : Uuid) → Uuid → List ℕ × ℕ
unfolding uuid_to_uuid128 uuid_len
uuid_to_le local (uuid16 v) = (le16 v, uuid_len (uuid16 v))
uuid_to_le local u =
    let full = uuid_to_uuid128 u local in (bswap_128 (u128_bytes full), uuid_len full)

-- `le_to_uuid` of gatt-db.c, of a buffer `src` of `len` bytes
unfoldable pub le_to_uuid : List ℕ → Option Uuid
le_to_uuid (a ∷ b ∷ []) = some (uuid16 (from_le16 a b))
le_to_uuid (a ∷ b ∷ c ∷ d ∷ []) = some (uuid32 (from_le16 a b + 65536 * from_le16 c d))
le_to_uuid src = if length src == 16 then some (uuid128 (bswap_128 src)) else none

-- A UUID whose value fits its tag.
abbrev pub IsUuid : Uuid → Type 0
IsUuid unspec = ⊥
IsUuid (uuid16 v) = v < 2 ^ 16
IsUuid (uuid32 v) = v < 2 ^ 32
IsUuid (uuid128 bs) = (length bs ≡ 16) × All IsByte bs

-- Bytes as a number, most significant first.
unfoldable pub number_from : ℕ → List ℕ → ℕ
number_from n [] = n
number_from n (b ∷ bs) = number_from (n * 256 + b) bs

abbrev pub base_number : ℕ
base_number = 0x0000_0000_0000_1000_8000_0080_5F9B_34FB

-- The number that the Bluetooth specification gives to a UUID: a short one counts above the base.
unfoldable pub uuid_number : Uuid → ℕ
unfolding number_from
uuid_number unspec = 0
uuid_number (uuid16 v) = v * 2 ^ 96 + base_number
uuid_number (uuid32 v) = v * 2 ^ 96 + base_number
uuid_number (uuid128 bs) = number_from 0 bs
