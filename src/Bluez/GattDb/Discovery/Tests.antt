-- ===== src/Bluez/GattDb/Discovery/Tests.antt =====
-- A database with a service of four handles, two in use, and the theorems applied to it.
use minipro.Base.{ℕ, ◌≡◌, refl, true, ◌&&◌, none, some, [], ◌∷◌, arith}
use minipro.Bluez.Uuid.{uuid16}
use minipro.Bluez.GattDb.{Attribute, Service, Db, uuid_equal}
use minipro.Bluez.GattDb.Lookup.{
  gatt_db_find_information, gatt_db_read_by_type, gatt_db_find_by_type,
}
use minipro.Bluez.GattDb.Attributes.Dense.{IsDense}
use minipro.Bluez.GattDb.Discovery.Full.{IsDense-IsRanged}
use minipro.Bluez.GattDb.Discovery.{select, active_slots, within, discovery_lem}

abbrev attribute_at : ℕ → ℕ → Attribute
attribute_at handle type = record {
  handle = handle;
  uuid = uuid16 type;
  permissions = 0;
  value = 0x0f ∷ 0x18 ∷ [];
  read_func = 0;
  write_func = 0;
  user_data = 0;
}

abbrev battery_service : Service
battery_service = record {
  active = true;
  claimed = true;
  num_handles = 4;
  declaration = attribute_at 5 0x2800;
  slots = some (attribute_at 6 0x2902) ∷ none ∷ none ∷ [];
}

battery_service-IsDense : IsDense battery_service 2
battery_service-IsDense = record {
  filled = (refl, (refl, tt));
  size = refl;
  some_filled = omega arith;
  positive = omega arith;
  in_range = omega arith;
}

abbrev one_service : Db
one_service = record { next_handle = 9; services = battery_service ∷ [] }

discovery_lem_example :
    (gatt_db_find_information one_service 2 7
      ≡ select (λ a. within 2 7 a && true) (active_slots one_service.services))
    × (gatt_db_read_by_type one_service 2 7 (uuid16 0x2902)
        ≡ select
            (λ a. within 2 7 a && uuid_equal (uuid16 0x2902) a.uuid)
            (active_slots one_service.services))
    × (gatt_db_find_by_type one_service 2 7 (uuid16 0x2902)
        ≡ select
            (λ a. within 2 7 a && uuid_equal (uuid16 0x2902) a.uuid)
            (active_slots one_service.services))
discovery_lem_example =
    discovery_lem one_service 2 7 (uuid16 0x2902)
      (IsDense-IsRanged battery_service 2 battery_service-IsDense (omega arith), tt)
