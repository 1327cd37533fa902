-- ===== src/Bluez/GattDb/Groups.antt =====
-- `gatt_db_read_by_group_type` and `gatt_db_foreach_service`: the services that they list.
mod Tests
use minipro.Base.{
  ℕ, zero, suc, ◌+◌, ◌-◌, ◌^◌, ◌%◌, ◌≤◌, ◌<◌, ◌≡◌, ◌⊎◌, inl, inr, refl, sym, ap, ◌∙◌, Bool, true,
  false, not, ◌&&◌, ◌||◌, Option, none, some, List, [], ◌∷◌, arith, ◌==◌, ltb, leb, if◌then◌else◌,
  length, map, All, Bool-cases,
}
use minipro.Bluez.Uuid.{Uuid, unspec}
use minipro.Bluez.GattDb.{Attribute, Service, Db, uuid_equal, get_service_uuid}
use minipro.Bluez.GattDb.Order.{past, Fits, Above, IsOrdered}
use minipro.Bluez.GattDb.Lookup.{
  in_group, read_group_loop, gatt_db_read_by_group_type, in_service_range, is_service_of,
  services_where, gatt_db_foreach_service_in_range, gatt_db_foreach_service,
}

-- the declarations of the active services of a type that begin in a range
abbrev pub grouped : (start end : ℕ) → Uuid → Service → Bool
grouped start end type s =
    s.active
    && (uuid_equal type s.declaration.uuid
        && (leb start s.declaration.handle && leb s.declaration.handle end))

-- the first ones whose values have `size` bytes
abbrev pub of_size : ℕ → List Attribute → List Attribute
of_size size [] = []
of_size size (a ∷ as') = if size == length a.value then a ∷ of_size size as' else []

-- those at the front whose values are as long as the first
abbrev pub same_size : List Attribute → List Attribute
same_size [] = []
same_size (a ∷ as') = a ∷ of_size (length a.value) as'

in_group_lem :
    (start end : ℕ) (type : Uuid) (s : Service)
    → Fits s
    → in_group start end type s ≡ grouped start end type s
unfolding in_group
in_group_lem start end type s fits = ground (arith, fits.some_handle, fits.positive, fits.in_range)

module _ (start end : ℕ) (type : Uuid) where
  abbrev test : Service → Bool
  test = in_group start end type

  -- once the size is known
  sized_lem :
      (size : ℕ) (ss : List Service)
      → 0 < size
      → read_group_loop test size ss ≡ of_size size (services_where test ss)
  unfolding read_group_loop services_where
  sized_lem size [] pos = refl
  sized_lem size (s ∷ ss) pos =
      let later = sized_lem size ss pos in
      let known : (size == 0) ≡ false = ground arith in
      elim (Bool-cases (in_group start end type s)) [
        | inl hit ↦ rw (hit, known, later)
        | inr miss ↦ rw (miss, later)
      ]

  unsized_lem :
      (ss : List Service)
      → All (λ s. 0 < length s.declaration.value) ss
      → read_group_loop test 0 ss ≡ same_size (services_where test ss)
  unfolding read_group_loop services_where
  unsized_lem [] all = refl
  unsized_lem (s ∷ ss) all = elim (Bool-cases (in_group start end type s)) [
    | inl hit ↦ rw (hit, sized_lem (length s.declaration.value) ss all.0)
    | inr miss ↦ rw (miss, unsized_lem ss all.1)
  ]

services_where-same :
    (p q : Service → Bool) (ss : List Service)
    → All (λ s. p s ≡ q s) ss
    → services_where p ss ≡ services_where q ss
unfolding services_where
services_where-same p q [] all = refl
services_where-same p q (s ∷ ss) all = rw (all.0, services_where-same p q ss all.1)

each_in_group :
    (start end : ℕ) (type : Uuid) (lo : ℕ) (ss : List Service)
    → Above lo ss
    → All (λ s. in_group start end type s ≡ grouped start end type s) ss
each_in_group start end type lo [] above = tt
each_in_group start end type lo (s ∷ ss) above =
    (in_group_lem start end type s above.1, each_in_group start end type (past s) ss above.2)

-- In an ordered database whose declarations are not empty, `gatt_db_read_by_group_type` lists the
-- active services of the given type that begin in the range, in order, up to the first one whose
-- UUID is not as long as that of the first of them.
pub read_by_group_type_lem :
    (db : Db) (start end : ℕ) (type : Uuid)
    → IsOrdered db
    → All (λ s. 0 < length s.declaration.value) db.services
    → gatt_db_read_by_group_type db start end type
      ≡ same_size (services_where (grouped start end type) db.services)
unfolding gatt_db_read_by_group_type
read_by_group_type_lem db start end type ordered some_value =
    unsized_lem start end type db.services some_value
    ∙ ap same_size (
        services_where-same (in_group start end type) (grouped start end type) db.services
          (each_in_group start end type 1 db.services ordered))

everything :
    (lo : ℕ) (ss : List Service)
    → Above lo ss
    → All (λ s. in_service_range 1 0xffff none s ≡ true) ss
unfolding in_service_range is_service_of
everything lo [] above = tt
everything lo (s ∷ ss) above = (
  ground (arith, above.1.positive, above.1.in_range, above.1.some_handle),
  everything (past s) ss above.2,
)

where_true :
    (test : Service → Bool) (ss : List Service)
    → All (λ s. test s ≡ true) ss
    → services_where test ss ≡ map (λ s. s.declaration) ss
unfolding services_where
where_true test [] all = refl
where_true test (s ∷ ss) all = rw (all.0, where_true test ss all.1)

-- Without a UUID, `gatt_db_foreach_service` visits every service of an ordered database, in order.
pub foreach_service_lem :
    (db : Db)
    → IsOrdered db
    → gatt_db_foreach_service db none ≡ map (λ s. s.declaration) db.services
unfolding gatt_db_foreach_service gatt_db_foreach_service_in_range
foreach_service_lem db ordered =
    where_true (in_service_range 1 0xffff none) db.services (everything 1 db.services ordered)
