-- ===== src/Bluez/GattDb/Attributes/Tests.antt =====
-- A service with one attribute in use, at the handles 5 to 8, and the theorems applied to it.
use minipro.Base.{◌+◌, ◌≡◌, ◌≤◌, ◌<◌, refl, ◌⊎◌, true, none, [], ◌∷◌, arith}
use minipro.Bluez.Uuid.{Uuid, uuid16, uuid32}
use minipro.Bluez.GattDb.{Service}
use minipro.Bluez.GattDb.Attributes.{AttributeData, gatt_db_service_add_characteristic}
use minipro.Bluez.GattDb.Attributes.Dense.{IsDense}
use minipro.Bluez.GattDb.Attributes.Added.{NextTwo, add_characteristic-IsDense}

abbrev empty_service : Service
empty_service = record {
  active = true;
  claimed = true;
  num_handles = 4;
  declaration = record {
    handle = 5;
    uuid = uuid16 0x2800;
    permissions = 0;
    value = 0x0f ∷ 0x18 ∷ [];
    read_func = 0;
    write_func = 0;
    user_data = 0;
  };
  slots = none ∷ none ∷ none ∷ [];
}

empty_service-IsDense : IsDense empty_service 1
empty_service-IsDense = record {
  filled = (refl, tt);
  size = refl;
  some_filled = omega arith;
  positive = omega arith;
  in_range = omega arith;
}

abbrev level : Uuid
level = uuid32 0x2a19

abbrev no_callbacks : AttributeData
no_callbacks = record { permissions = 1; read_func = 0; write_func = 0; user_data = 0 }

add_characteristic-IsDense_example :
    ((1 + 1 < 4)
      × NextTwo empty_service 1 2 level
          (gatt_db_service_add_characteristic empty_service level 2 no_callbacks))
    ⊎ ((4 ≤ 1 + 1)
        × (gatt_db_service_add_characteristic empty_service level 2 no_callbacks
            ≡ (none, empty_service)))
add_characteristic-IsDense_example =
    add_characteristic-IsDense empty_service 1 empty_service-IsDense level 2 no_callbacks
      (omega arith)
