-- ===== src/Bluez/GattDb/Enclosed.antt =====
-- The ranges that `find_insert_loc` does not see: those that contain a whole older service.
use minipro.Base.{ℕ, ◌+◌, ◌-◌, ◌<◌, ◌≡◌, refl, Bool, some, [], ◌∷◌, arith}
use minipro.Bluez.Uuid.{Uuid}
use minipro.Bluez.GattDb.{
  Service, Db, service_start, new_service, new_attribute, behind, find_insert_loc, insert_at, place,
  gatt_db_insert_service,
}
use minipro.Bluez.GattDb.Order.{
  past, Fits, IsOrdered, service_end_lem, InRange, guard_passes, creates,
}

skips :
    (h n : ℕ) (s : Service)
    → Fits s
    → h < s.declaration.handle
    → past s < h + n
    → find_insert_loc h (h + n - 1) 0 (s ∷ []) ≡ behind 1
unfolding find_insert_loc service_start
skips h n s fits before after = ground (arith, service_end_lem s fits)

-- A database that holds one service accepts any new service whose handles begin before that one and
-- end behind it: the two then share handles, and the list is no longer in order.
pub enclosing_accepted :
    (next h : ℕ) (u : Uuid) (primary : Bool) (n : ℕ) (s : Service)
    → InRange h n
    → Fits s
    → h < s.declaration.handle
    → past s < h + n
    → let db : Db = record { next_handle = next; services = s ∷ [] } in
      let (out, db') = gatt_db_insert_service db h u primary n in
      IsOrdered db
      × (out ≡ some (new_service u h primary n).declaration)
      × (db'.services ≡ s ∷ (new_service u h primary n ∷ []))
      × (¬ IsOrdered db')
unfolding gatt_db_insert_service place insert_at
enclosing_accepted next h u primary n s range fits before after =
    rw (guard_passes h n range, skips h n s fits before after, creates u h primary n range.1)
      (
        (omega arith, fits, tt),
        refl,
        refl,
        unfold new_service new_attribute in λ above. absurd (omega arith),
      )
