-- ===== src/Bluez/GattDb/Descriptors/Tests.antt =====
-- A service with a characteristic that has one descriptor, and the theorem applied to it.
use minipro.Base.{ℕ, ◌≡◌, refl, true, false, none, some, [], ◌∷◌}
use minipro.Bluez.Uuid.{uuid16, uuid_cmp, uuid_to_uuid128, uuid128_cmp, memcmp, uuid16_to_uuid128}
use minipro.Bluez.GattDb.{Attribute, Service, uuid_equal, characteristic_uuid}
use minipro.Bluez.GattDb.Lookup.{ends_descriptors, gatt_db_service_foreach_desc}
use minipro.Bluez.GattDb.Descriptors.{foreach_desc_lem}

abbrev attribute_at : ℕ → ℕ → Attribute
attribute_at handle type = record {
  handle = handle;
  uuid = uuid16 type;
  permissions = 0;
  value = [];
  read_func = 0;
  write_func = 0;
  user_data = 0;
}

abbrev battery_service : Service
battery_service = record {
  active = true;
  claimed = true;
  num_handles = 5;
  declaration = attribute_at 5 0x2800;
  slots =
      some (attribute_at 6 0x2803)
      ∷ some (attribute_at 7 0x2a19)
      ∷ some (attribute_at 8 0x2902)
      ∷ none
      ∷ [];
}

is_characteristic : uuid_equal characteristic_uuid (uuid16 0x2803) ≡ true
unfolding uuid_equal uuid_cmp uuid_to_uuid128 uuid128_cmp memcmp uuid16_to_uuid128
is_characteristic = refl

is_descriptor : ends_descriptors (attribute_at 8 0x2902) ≡ false
unfolding ends_descriptors uuid_equal uuid_cmp uuid_to_uuid128 uuid128_cmp memcmp uuid16_to_uuid128
is_descriptor = refl

foreach_desc_lem_example :
    gatt_db_service_foreach_desc battery_service 1 ≡ attribute_at 8 0x2902 ∷ []
foreach_desc_lem_example =
    foreach_desc_lem battery_service (attribute_at 6 0x2803) (some (attribute_at 7 0x2a19))
      (attribute_at 8 0x2902 ∷ []) (some (attribute_at 5 0x2800) ∷ []) (none ∷ []) refl
      is_characteristic (is_descriptor, tt) tt
