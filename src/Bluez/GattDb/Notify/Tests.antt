-- ===== src/Bluez/GattDb/Notify/Tests.antt =====
-- A database with one listener, and the theorems applied to it.
use minipro.Base.{◌≡◌, ◌≢◌, ◌<◌, ◌++◌, All, refl, true, false, some, List, [], ◌∷◌, arith}
use minipro.Bluez.Uuid.{uuid16}
use minipro.Bluez.GattDb.{Service}
use minipro.Bluez.GattDb.Notify.{
  Notify, Notifier, Call, gatt_db_register, gatt_db_unregister, notify_destroy,
}
use minipro.Bluez.GattDb.Notify.Registered.{
  Act, registers, unregisters, act_all, no_listeners, gatt_db_unregister-register,
}
use minipro.Bluez.GattDb.Notify.Told.{activity, Knows, activity-Knows}

abbrev one_listener : Notifier
one_listener = record {
  ref_count = 1;
  next_notify_id = 4;
  notify_list =
      record { id = 3; service_added = true; service_removed = true; destroy = false } ∷ [];
}

abbrev battery_service : Service
battery_service = record {
  active = false;
  claimed = false;
  num_handles = 1;
  declaration = record {
    handle = 5;
    uuid = uuid16 0x2800;
    permissions = 0;
    value = 0x0f ∷ 0x18 ∷ [];
    read_func = 0;
    write_func = 0;
    user_data = 0;
  };
  slots = [];
}

-- a listener that came and went, and one that stayed
abbrev three_acts : List Act
three_acts = registers true true false ∷ registers true true true ∷ unregisters 1 ∷ []

gatt_db_unregister-register_example :
    let db = act_all three_acts no_listeners in
    let (id, joined) = gatt_db_register db true false true in
    let n : Notify = record {
      id = id;
      service_added = true;
      service_removed = false;
      destroy = true;
    } in
    (0 < id)
    × All (λ m. m.id ≢ id) db.notify_list
    × (joined.notify_list ≡ db.notify_list ++ (n ∷ []))
    × (gatt_db_unregister joined id
        ≡ (true, notify_destroy n, record joined { notify_list = db.notify_list }))
gatt_db_unregister-register_example =
    gatt_db_unregister-register three_acts true false true (omega arith) refl

-- The first id is 1, though the counter of a new database is 0.
first_id : (gatt_db_register no_listeners true false true).0 ≡ 1
unfolding gatt_db_register
first_id = refl

activity-Knows_example :
    (cs : List Call) × (t : Service) × (activity one_listener
        (true ∷ true ∷ false ∷ true ∷ [])
        battery_service
      ≡ some (cs, t))
    × Knows 3 one_listener.notify_list battery_service.active t.active cs
activity-Knows_example =
    activity-Knows 3 one_listener (true ∷ true ∷ false ∷ true ∷ []) battery_service
      ((refl, refl), tt)
