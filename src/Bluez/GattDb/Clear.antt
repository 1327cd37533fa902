-- ===== src/Bluez/GattDb/Clear.antt =====
-- `gatt_db_clear_range` and `gatt_db_clear`, and what can be added after them.
use minipro.Base.{
  ℕ, ◌+◌, ◌-◌, ◌%◌, ◌^◌, ◌≤◌, ◌<◌, ◌≡◌, ◌⊎◌, refl, Bool, true, false, none, List, [], ◌∷◌, arith,
  ltb, inl, inr, Bool-cases, max,
}
use minipro.Bluez.Uuid.{Uuid}
use minipro.Bluez.GattDb.{
  Service, Db, service_start, place, gatt_db_insert_service, gatt_db_add_service, gatt_db_clear,
  match_range, drop_range, gatt_db_clear_range,
}
use minipro.Bluez.GattDb.Order.{past, Fits, Above, IsOrdered, service_end_lem}
use minipro.Bluez.GattDb.Insert.{Apart, In, here, there}

Above-le : (lo hi : ℕ) (ss : List Service) → lo ≤ hi → Above hi ss → Above lo ss
Above-le lo hi [] le above = tt
Above-le lo hi (s ∷ ss) le above = (omega arith, above.1, above.2)

drop_range-Above :
    (start end lo : ℕ) (ss : List Service) → Above lo ss → Above lo (drop_range start end ss)
unfolding drop_range
drop_range-Above start end lo [] above = tt
drop_range-Above start end lo (s ∷ ss) above = elim (Bool-cases (match_range start end s)) [
  | inl hit ↦ rw hit (
      Above-le lo (past s) (drop_range start end ss) (omega arith)
        (drop_range-Above start end (past s) ss above.2))
  | inr miss ↦ rw miss (above.0, above.1, drop_range-Above start end (past s) ss above.2)
]

missed :
    (h n : ℕ) (s : Service)
    → Fits s
    → 0 < n
    → match_range h (h + n - 1) s ≡ false
    → (past s ≤ h) ⊎ (h + n ≤ s.declaration.handle)
unfolding match_range service_start
missed h n s fits pos e = ground (arith, service_end_lem s fits)

-- the services that are left lie outside the range
drop_range-Apart :
    (h n lo : ℕ) (ss : List Service) → 0 < n → Above lo ss → Apart h n (drop_range h (h + n - 1) ss)
unfolding drop_range
drop_range-Apart h n lo [] pos above = tt
drop_range-Apart h n lo (s ∷ ss) pos above = elim (Bool-cases (match_range h (h + n - 1) s)) [
  | inl hit ↦ rw hit (drop_range-Apart h n (past s) ss pos above.2)
  | inr miss ↦ rw miss (missed h n s above.1 pos miss, drop_range-Apart h n (past s) ss pos above.2)
]

untouched :
    (h n : ℕ) (t : Service)
    → Fits t
    → 0 < n
    → (past t ≤ h) ⊎ (h + n ≤ t.declaration.handle)
    → match_range h (h + n - 1) t ≡ false
unfolding match_range service_start
untouched h n t fits pos outside = ground (arith, service_end_lem t fits)

range_ok : (h n : ℕ) → 0 < n → ltb (h + n - 1) h ≡ false
range_ok h n pos = ground arith

wrapped :
    (s : Service) (next : ℕ) → past s ≡ 2 ^ 16 → next ≤ past s → max (past s) next % 2 ^ 16 ≡ 0
wrapped s next top low = omega arith

-- a service survives if it lies outside the range
drop_range-In :
    (h n lo : ℕ) (t : Service) (ss : List Service)
    → 0 < n
    → Above lo ss
    → In t ss
    → (past t ≤ h) ⊎ (h + n ≤ t.declaration.handle)
    → In t (drop_range h (h + n - 1) ss)
unfolding drop_range
drop_range-In h n lo t [] pos above i outside = elim i [ ]
drop_range-In h n lo t (s ∷ ss) pos above here outside =
    rw (untouched h n s above.1 pos outside) here
drop_range-In h n lo t (s ∷ ss) pos above (there i) outside =
    let rest = drop_range-In h n (past s) t ss pos above.2 i outside in
    elim (Bool-cases (match_range h (h + n - 1) s)) [
      | inl hit ↦ rw hit rest
      | inr miss ↦ rw miss (there rest)
    ]

-- `gatt_db_clear_range` over n > 0 handles from h leaves an ordered database in which no service
-- touches them, and keeps every service that did not.
pub clear_range_lem :
    (db : Db) (h n : ℕ)
    → 0 < n
    → IsOrdered db
    → let (done, db') = gatt_db_clear_range db h (h + n - 1) in
      (done ≡ true)
      × IsOrdered db'
      × Apart h n db'.services
      × (db'.next_handle ≡ db.next_handle)
      × ((t : Service)
          → In t db.services
          → (past t ≤ h) ⊎ (h + n ≤ t.declaration.handle)
          → In t db'.services)
unfolding gatt_db_clear_range
clear_range_lem db h n pos ordered = rw (range_ok h n pos) (
  refl,
  drop_range-Above h (h + n - 1) 1 db.services ordered,
  drop_range-Apart h n 1 db.services pos ordered,
  refl,
  λ t i outside. drop_range-In h n 1 t db.services pos ordered i outside,
)

-- After `gatt_db_clear`, which sets `next_handle` to 0, or after a service has been placed at the very
-- end of the handles, which makes it wrap round to 0, `gatt_db_add_service` refuses every service and
-- leaves the database as it was.
pub add_service_stuck :
    (db : Db) (u : Uuid) (primary : Bool) (n m : ℕ) (s : Service)
    → past s ≡ 2 ^ 16
    → db.next_handle ≤ past s
    → (gatt_db_add_service (gatt_db_clear db) u primary n ≡ (none, gatt_db_clear db))
      × (gatt_db_add_service (place db m s) u primary n ≡ (none, place db m s))
unfolding gatt_db_add_service gatt_db_clear place gatt_db_insert_service
add_service_stuck db u primary n m s top low = (refl, rw (wrapped s db.next_handle top low))
