-- ===== src/Bluez/GattDb/Remove.antt =====
-- `gatt_db_remove_service`. The calls that `gatt_db_service_destroy` makes are in Notify.
use minipro.Base.{
  ℕ, zero, suc, ◌<◌, ◌≡◌, refl, Bool, true, false, List, [], ◌∷◌, arith, ◌==◌, if◌then◌else◌,
}
use minipro.Bluez.Uuid.{Uuid}
use minipro.Bluez.GattDb.{
  Service, Db, service_start, new_service, new_attribute, insert_at, place, gatt_db_insert_service,
}
use minipro.Bluez.GattDb.Order.{past, Above, IsOrdered, InRange}
use minipro.Bluez.GattDb.Insert.{Apart}
use minipro.Bluez.GattDb.Add.{insert_placed}

-- `queue_remove` of a service. Its pointer is represented by its first handle, which in an ordered
-- database, and only there, tells the services apart; the theorem is about ordered databases.
unfoldable pub drop_service : (handle : ℕ) → List Service → List Service
drop_service handle [] = []
drop_service handle (s ∷ ss) =
    let rest = drop_service handle ss in if service_start s == handle then ss else s ∷ rest

unfoldable pub gatt_db_remove_service : Db → Service → Db
gatt_db_remove_service db s = record db { services = drop_service (service_start s) db.services }

elsewhere :
    (h n lo : ℕ) (t : Service) (ss : List Service)
    → 0 < n
    → Above lo (t ∷ ss)
    → Apart h n (t ∷ ss)
    → (service_start t == h) ≡ false
unfolding service_start
elsewhere h n lo t ss pos above apart = ground (arith, above.1.some_handle, apart.0)

drop_service-insert_at :
    (h n lo m : ℕ) (s : Service) (ss : List Service)
    → 0 < n
    → service_start s ≡ h
    → Above lo ss
    → Apart h n ss
    → drop_service h (insert_at m s ss) ≡ ss
unfolding drop_service insert_at
drop_service-insert_at h n lo zero s ss pos start above apart =
    let same : (service_start s == h) ≡ true = ground arith in rw same
drop_service-insert_at h n lo (suc m) s [] pos start above apart =
    let same : (service_start s == h) ≡ true = ground arith in rw same
drop_service-insert_at h n lo (suc m) s (t ∷ ss) pos start above apart = rw (
  elsewhere h n lo t ss pos above apart,
  drop_service-insert_at h n (past t) m s ss pos start above.2 apart.1,
)

-- Adding a service over handles that touch no service of an ordered database and removing it again
-- gives the services that there were.
pub remove_service-insert_service :
    (db : Db) (h : ℕ) (u : Uuid) (primary : Bool) (n : ℕ)
    → InRange h n
    → IsOrdered db
    → Apart h n db.services
    → (gatt_db_remove_service
        (gatt_db_insert_service db h u primary n).1
        (new_service u h primary n)).services
      ≡ db.services
unfolding gatt_db_remove_service
remove_service-insert_service db h u primary n range ordered apart =
    let (m, e, above, i) = insert_placed db h u primary n range ordered apart in
    let start : service_start (new_service u h primary n) ≡ h =
      (unfold service_start new_service new_attribute in refl) in
    rw (e, start)
      (unfold place in
        drop_service-insert_at h n 1 m (new_service u h primary n) db.services range.1 start ordered
          apart)
