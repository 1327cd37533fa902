-- ===== src/Bluez/GattDb/Tests.antt =====
-- A database with one service at the handles 5 to 8, and the theorems applied to it.
use minipro.Base.{◌+◌, ◌-◌, ◌^◌, ◌≤◌, ◌≡◌, ◌⊎◌, inl, true, none, some, [], ◌∷◌, arith}
use minipro.Bluez.Uuid.{Uuid, uuid16}
use minipro.Bluez.GattDb.{Service, Db, new_service, gatt_db_insert_service, gatt_db_clear_range}
use minipro.Bluez.GattDb.Order.{past, Fits, IsOrdered, insert_service-IsOrdered}
use minipro.Bluez.GattDb.Insert.{Apart, In}
use minipro.Bluez.GattDb.Lookup.{gatt_db_get_attribute}
use minipro.Bluez.GattDb.Add.{get_attribute-insert_service}
use minipro.Bluez.GattDb.Remove.{gatt_db_remove_service, remove_service-insert_service}
use minipro.Bluez.GattDb.Enclosed.{enclosing_accepted}
use minipro.Bluez.GattDb.Clear.{clear_range_lem}

abbrev battery : Uuid
battery = uuid16 0x180f

abbrev battery_service : Service
battery_service = record {
  active = true;
  claimed = true;
  num_handles = 4;
  declaration = record {
    handle = 5;
    uuid = uuid16 0x2800;
    permissions = 0;
    value = 0x0f ∷ 0x18 ∷ [];
    read_func = 0;
    write_func = 0;
    user_data = 0;
  };
  slots = none ∷ none ∷ none ∷ [];
}

abbrev one_service : Db
one_service = record { next_handle = 9; services = battery_service ∷ [] }

battery_service-Fits : Fits battery_service
battery_service-Fits = record {
  some_handle = omega arith;
  positive = omega arith;
  in_range = omega arith;
}

one_service-IsOrdered : IsOrdered one_service
one_service-IsOrdered = (omega arith, battery_service-Fits, tt)

insert_service-IsOrdered_example : IsOrdered (gatt_db_insert_service one_service 6 battery true 9).1
insert_service-IsOrdered_example =
    insert_service-IsOrdered one_service 6 battery true 9 one_service-IsOrdered
      (inl (omega arith), tt)

get_attribute-insert_service_example :
    let (out, db) = gatt_db_insert_service one_service 9 battery true 3 in
    (out ≡ some (new_service battery 9 true 3).declaration)
    × ((new_service battery 9 true 3).declaration.handle ≡ 9)
    × IsOrdered db
    × (gatt_db_get_attribute db 9 ≡ some (new_service battery 9 true 3).declaration)
    × ((t : Service) → In t one_service.services → In t db.services)
get_attribute-insert_service_example =
    get_attribute-insert_service one_service 9 battery true 3 (omega arith) one_service-IsOrdered
      (inl (omega arith), tt)

remove_service-insert_service_example :
    (gatt_db_remove_service
      (gatt_db_insert_service one_service 9 battery true 3).1
      (new_service battery 9 true 3)).services
    ≡ one_service.services
remove_service-insert_service_example =
    remove_service-insert_service one_service 9 battery true 3 (omega arith) one_service-IsOrdered
      (inl (omega arith), tt)

enclosing_accepted_example :
    let (out, db) = gatt_db_insert_service one_service 1 battery true 9 in
    IsOrdered one_service
    × (out ≡ some (new_service battery 1 true 9).declaration)
    × (db.services ≡ battery_service ∷ (new_service battery 1 true 9 ∷ []))
    × (¬ IsOrdered db)
enclosing_accepted_example =
    enclosing_accepted 9 1 battery true 9 battery_service (omega arith) battery_service-Fits
      (omega arith) (omega arith)

clear_range_lem_example :
    let (done, db) = gatt_db_clear_range one_service 8 (8 + 2 - 1) in
    (done ≡ true)
    × IsOrdered db
    × Apart 8 2 db.services
    × (db.next_handle ≡ one_service.next_handle)
    × ((t : Service)
        → In t one_service.services
        → (past t ≤ 8) ⊎ (8 + 2 ≤ t.declaration.handle)
        → In t db.services)
clear_range_lem_example = clear_range_lem one_service 8 2 (omega arith) one_service-IsOrdered

abbrev last_service : Service
last_service = record battery_service { num_handles = 2 ^ 16 - 5 }
