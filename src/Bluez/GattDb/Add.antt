-- ===== src/Bluez/GattDb/Add.antt =====
-- What `gatt_db_insert_service` puts into the database can be found there, and is put there once.
use minipro.Base.{
  ℕ, ◌≡◌, ◌⊎◌, refl, ◌∙◌, Bool, true, false, some, arith, length, length-reverse, inl, inr,
}
use minipro.Bluez.Uuid.{
  Uuid, unspec, uuid16, uuid32, uuid128, IsUuid, uuid_number, uuid_to_le, le_to_uuid,
}
use minipro.Bluez.Uuid.Compare.{uuid_cmp-compare}
use minipro.Bluez.Uuid.Wire.{le_to_uuid-uuid_to_le}
use minipro.Bluez.GattDb.{
  Service, Db, uuid_equal, get_service_uuid, service_type, new_service, new_attribute,
  service_matches, place, gatt_db_insert_service,
}
use minipro.Bluez.GattDb.Order.{IsOrdered, InRange, guard_passes, creates, place-IsOrdered}
use minipro.Bluez.GattDb.Lookup.{gatt_db_get_attribute}
use minipro.Bluez.GattDb.Insert.{
  Apart, Apart-EnclosesNone, find_insert_loc-Apart, In, In-insert_at, In-insert_at_other,
  find_insert_loc-In, get_attribute-In,
}

pub uuid_equal-number :
    (a b : Uuid) → IsUuid a → IsUuid b → uuid_number a ≡ uuid_number b → uuid_equal a b ≡ true
unfolding uuid_equal
uuid_equal-number a b ha hb e = ground (arith, uuid_cmp-compare unspec unspec a b ha hb)

-- the declaration of a new service holds its UUID
pub length-uuid_to_le :
    (u : Uuid)
    → IsUuid u
    → (length (uuid_to_le unspec u).0 ≡ 2) ⊎ (length (uuid_to_le unspec u).0 ≡ 16)
unfolding uuid_to_le
length-uuid_to_le unspec is = absurd is
length-uuid_to_le (uuid16 v) is = inl refl
length-uuid_to_le (uuid32 v) is = inr refl
length-uuid_to_le (uuid128 bs) is = inr (length-reverse bs ∙ is.0)

get_service_uuid-new :
    (u : Uuid) (h : ℕ) (primary : Bool) (n : ℕ)
    → IsUuid u
    → get_service_uuid (new_service u h primary n) ≡ le_to_uuid (uuid_to_le unspec u).0
unfolding get_service_uuid new_service new_attribute
get_service_uuid-new u h primary n is = ground (arith, length-uuid_to_le u is)

service_type-IsUuid : (primary : Bool) → IsUuid (service_type primary)
service_type-IsUuid true = omega arith
service_type-IsUuid false = omega arith

service_matches-new :
    (u : Uuid) (h : ℕ) (primary : Bool) (n : ℕ)
    → IsUuid u
    → service_matches (new_service u h primary n) h u primary n ≡ true
unfolding service_matches new_service new_attribute
service_matches-new u h primary n is =
    let type = service_type primary in
    let (v, back, same, _, isv) = le_to_uuid-uuid_to_le unspec u is in
    let held = get_service_uuid-new u h primary n is ∙ back in
    rw
      (
        service_matches,
        uuid_equal-number type type (service_type-IsUuid primary) (service_type-IsUuid primary)
            refl,
        held,
        uuid_equal-number v u isv is same,
      )
      (ground arith)

insert_present :
    (db : Db) (h : ℕ) (u : Uuid) (primary : Bool) (n : ℕ)
    → InRange h n
    → IsUuid u
    → IsOrdered db
    → In (new_service u h primary n) db.services
    → gatt_db_insert_service db h u primary n ≡ (some (new_service u h primary n).declaration, db)
unfolding gatt_db_insert_service new_service new_attribute
insert_present db h u primary n range is above i =
    rw
      (guard_passes h n range, find_insert_loc-In 0 1 i above, service_matches-new u h primary n is)

module _ (db : Db) (h : ℕ) (u : Uuid) (primary : Bool) (n : ℕ) (range : InRange h n)
    (ordered : IsOrdered db) (apart : Apart h n db.services) where
  abbrev added : Service
  added = new_service u h primary n

  pub insert_placed :
      (m : ℕ) × (gatt_db_insert_service db h u primary n
        ≡ (some added.declaration, place db m added))
      × IsOrdered (place db m added)
      × In added (place db m added).services
  unfolding gatt_db_insert_service
  insert_placed =
      let (m, e) = find_insert_loc-Apart h n 0 1 db.services range.1 ordered apart in
      (
        m,
        rw (guard_passes h n range, e, creates u h primary n range.1),
        place-IsOrdered db h u primary n m range ordered
            (Apart-EnclosesNone h n 1 db.services ordered apart) e,
        unfold place in In-insert_at added m db.services,
      )

  -- A range of handles that touches no service of an ordered database is accepted: the database stays
  -- ordered, looking up the first handle finds the declaration that was returned, and no older
  -- service is lost.
  pub get_attribute-insert_service :
      let (out, db') = gatt_db_insert_service db h u primary n in
      (out ≡ some added.declaration)
      × (added.declaration.handle ≡ h)
      × IsOrdered db'
      × (gatt_db_get_attribute db' h ≡ some added.declaration)
      × ((t : Service) → In t db.services → In t db'.services)
  get_attribute-insert_service =
      let (m, e, above, i) = insert_placed in
      rw e (
        refl,
        (unfold new_service new_attribute in refl),
        above,
        (unfold new_service new_attribute in get_attribute-In (place db m added) i above),
        unfold place in λ t. In-insert_at_other added t m db.services,
      )

  -- Asking for the same service again returns the same declaration and changes nothing.
  pub insert_service_twice :
      IsUuid u
      → let (out, db') = gatt_db_insert_service db h u primary n in
        gatt_db_insert_service db' h u primary n ≡ (out, db')
  insert_service_twice is =
      let (m, e, above, i) = insert_placed in
      rw e (insert_present (place db m added) h u primary n range is above i)
