-- ===== src/Bluez/GattDb/Groups/Tests.antt =====
-- A database of two services, and the theorems applied to it.
use minipro.Base.{ℕ, ◌≡◌, true, List, [], ◌∷◌, arith}
use minipro.Bluez.Uuid.{uuid16}
use minipro.Bluez.GattDb.{Service, Db}
use minipro.Bluez.GattDb.Order.{IsOrdered}
use minipro.Bluez.GattDb.Lookup.{gatt_db_read_by_group_type, services_where}
use minipro.Bluez.GattDb.Groups.{grouped, same_size, read_by_group_type_lem}

abbrev service_at : ℕ → List ℕ → Service
service_at handle value = record {
  active = true;
  claimed = true;
  num_handles = 1;
  declaration = record {
    handle = handle;
    uuid = uuid16 0x2800;
    permissions = 0;
    value = value;
    read_func = 0;
    write_func = 0;
    user_data = 0;
  };
  slots = [];
}

abbrev two_services : Db
two_services = record {
  next_handle = 8;
  services = service_at 5 (0x0f ∷ 0x18 ∷ []) ∷ service_at 7 (0x0a ∷ 0x18 ∷ []) ∷ [];
}

two_services-IsOrdered : IsOrdered two_services
two_services-IsOrdered = (
  omega arith,
  record { some_handle = omega arith; positive = omega arith; in_range = omega arith },
  (
    omega arith,
    record { some_handle = omega arith; positive = omega arith; in_range = omega arith },
    tt,
  ),
)

read_by_group_type_lem_example :
    gatt_db_read_by_group_type two_services 1 6 (uuid16 0x2800)
    ≡ same_size (services_where (grouped 1 6 (uuid16 0x2800)) two_services.services)
read_by_group_type_lem_example =
    read_by_group_type_lem two_services 1 6 (uuid16 0x2800) two_services-IsOrdered (omega arith)
