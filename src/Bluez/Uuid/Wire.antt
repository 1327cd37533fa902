-- ===== src/Bluez/Uuid/Wire.antt =====
-- The little-endian wire form of a UUID: two encoders and a decoder.
use mathlib.Core.List.{reverse, reverse-reverse}
use minipro.Base.{
  ℕ, ◌≡◌, refl, ◌∙◌, some, List, [], ◌∷◌, arith, ◌==◌, if◌then◌else◌, length, length-reverse,
}
use minipro.Bluez.Uuid.{
  Uuid, unspec, uuid16, uuid32, uuid128, uuid_to_uuid128, bt_uuid_to_le, uuid_to_le, le_to_uuid,
  IsUuid, uuid_number, uuid_type,
}

-- The encoders of uuid.c and of gatt-db.c write the same bytes for every specified UUID, whatever
-- is in the local variable, and gatt-db.c returns their number: 2 for a 16-bit UUID, else 16.
pub bt_uuid_to_le-uuid_to_le :
    (local u : Uuid)
    → IsUuid u
    → (bt_uuid_to_le u ≡ some (uuid_to_le local u).0)
      × ((uuid_to_le local u).1 ≡ length (uuid_to_le local u).0)
unfolding bt_uuid_to_le uuid_to_le
bt_uuid_to_le-uuid_to_le local unspec h = absurd h
bt_uuid_to_le-uuid_to_le local (uuid16 v) h = (refl, refl)
bt_uuid_to_le-uuid_to_le local (uuid32 v) h = (refl, refl)
bt_uuid_to_le-uuid_to_le local (uuid128 bs) h = (refl, omega (arith, length-reverse bs))

le_to_uuid_wide : (src : List ℕ) → length src ≡ 16 → le_to_uuid src ≡ some (uuid128 (reverse src))
unfolding le_to_uuid
le_to_uuid_wide (a ∷ b ∷ []) h = absurd (omega arith)
le_to_uuid_wide (a ∷ b ∷ c ∷ d ∷ []) h = absurd (omega arith)
le_to_uuid_wide src h = ground arith

-- Decoding what `uuid_to_le` wrote for a specified UUID gives back one that stands for the same number:
-- 16-bit ones stay 16 bits wide, the others come back 128 bits wide.
pub le_to_uuid-uuid_to_le :
    (local u : Uuid)
    → IsUuid u
    → (v : Uuid) × (le_to_uuid (uuid_to_le local u).0 ≡ some v)
      × (uuid_number v ≡ uuid_number u)
      × (uuid_type v ≡ (if uuid_type u == 16 then 16 else 128))
      × IsUuid v
unfolding le_to_uuid uuid_to_le uuid_number uuid_type
le_to_uuid-uuid_to_le local unspec h = absurd h
le_to_uuid-uuid_to_le local (uuid16 v) h = (uuid16 v, ground arith, refl, refl, h)
le_to_uuid-uuid_to_le local (uuid32 v) h =
    (uuid_to_uuid128 (uuid32 v) local, refl, omega arith, refl, omega arith)
le_to_uuid-uuid_to_le local (uuid128 bs) h = (
  uuid128 bs,
  le_to_uuid_wide (reverse bs) (rw length-reverse h.0) ∙ rw reverse-reverse,
  refl,
  refl,
  h,
)
