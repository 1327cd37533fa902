-- ===== src/Bluez/GattDb/Lookup.antt =====
-- lib/bluez/gatt-db.c: `gatt_db_get_attribute` and the services that discovery lists.
use minipro.Base.{
  ℕ, ◌+◌, ◌-◌, ◌%◌, ◌^◌, Bool, true, not, ◌&&◌, ◌||◌, Option, none, some, List, [], ◌∷◌, ◌++◌,
  get_elem?, ◌==◌, ltb, leb, if◌then◌else◌, length, drop,
}
use minipro.Bluez.Uuid.{Uuid, unspec}
use minipro.Bluez.GattDb.{
  Attribute, Service, Db, attributes, uuid_equal, service_start, service_end, get_service_uuid,
  characteristic_uuid, included_service_uuid,
}

-- `find_service_for_handle`
unfoldable pub find_service_for_handle : ℕ → Service → Bool
find_service_for_handle handle s = leb (service_start s) handle && leb handle (service_end s)

-- `queue_find`
unfoldable pub find_service : (Service → Bool) → List Service → Option Service
find_service matches [] = none
find_service matches (s ∷ ss) = if matches s then some s else find_service matches ss

-- the loop over the attributes of a service; an empty slot is skipped
unfoldable pub find_attribute : ℕ → List (Option Attribute) → Option Attribute
find_attribute handle [] = none
find_attribute handle (none ∷ slots) = find_attribute handle slots
find_attribute handle (some a ∷ slots) =
    if a.handle == handle then some a else find_attribute handle slots

-- `gatt_db_get_attribute`
unfoldable pub gatt_db_get_attribute : Db → (handle : ℕ) → Option Attribute
gatt_db_get_attribute db handle =
    if handle == 0 then none else elim (find_service (find_service_for_handle handle) db.services) [
      | none ↦ none
      | some s ↦ find_attribute handle (attributes s)
    ]

-- `find_service_with_uuid`; a service whose declaration holds no UUID leaves the local as it was.
unfoldable pub find_service_with_uuid : Uuid → Service → Bool
find_service_with_uuid uuid s =
    uuid_equal uuid (elim (get_service_uuid s) [ none ↦ unspec | some u ↦ u ])

-- `gatt_db_get_service_with_uuid`
unfoldable pub gatt_db_get_service_with_uuid : Db → Uuid → Option Attribute
gatt_db_get_service_with_uuid db uuid =
    elim (find_service (find_service_with_uuid uuid) db.services) [
      | none ↦ none
      | some s ↦ some s.declaration
    ]

-- the test of `gatt_db_read_by_group_type` on one service
unfoldable pub in_group : (start_handle end_handle : ℕ) → Uuid → Service → Bool
in_group start_handle end_handle type s =
    let grp_start = s.declaration.handle in
    let grp_end = (grp_start + s.num_handles + (2 ^ 16 - 1)) % 2 ^ 16 in
    s.active
    && (uuid_equal type (s.declaration.uuid)
        && (not (ltb grp_end start_handle || ltb end_handle grp_start)
            && not (ltb grp_start start_handle || ltb end_handle grp_start)))

-- its loop: all results have values of one size, that of the first, and it stops at another
unfoldable pub read_group_loop : (Service → Bool) → (uuid_size : ℕ) → List Service → List Attribute
read_group_loop test uuid_size [] = []
read_group_loop test uuid_size (s ∷ ss) =
    let size = length (s.declaration.value) in
    let skip = read_group_loop test uuid_size ss in
    let first = s.declaration ∷ read_group_loop test size ss in
    let next = s.declaration ∷ read_group_loop test uuid_size ss in
    if test s
    then if uuid_size == 0 then first else if uuid_size == size then next else []
    else skip

-- `gatt_db_read_by_group_type`
unfoldable pub gatt_db_read_by_group_type :
    Db → (start_handle end_handle : ℕ) → Uuid → List Attribute
gatt_db_read_by_group_type db start_handle end_handle type =
    read_group_loop (in_group start_handle end_handle type) 0 db.services

-- the loop of `find_information` over one service
unfoldable pub information_loop :
    (start_handle end_handle : ℕ) → List (Option Attribute) → List Attribute
information_loop start_handle end_handle [] = []
information_loop start_handle end_handle (none ∷ slots) =
    information_loop start_handle end_handle slots
information_loop start_handle end_handle (some a ∷ slots) =
    let rest = information_loop start_handle end_handle slots in
    if ltb a.handle start_handle then rest else if ltb end_handle a.handle then [] else a ∷ rest

unfoldable pub find_information : (start_handle end_handle : ℕ) → Service → List Attribute
find_information start_handle end_handle s =
    if not s.active
    then []
    else if ltb (s.declaration.handle + s.num_handles - 1) start_handle
    then []
    else information_loop start_handle end_handle (attributes s)

-- `queue_foreach` over the services, with the results in order
unfoldable pub each_service : (Service → List Attribute) → List Service → List Attribute
each_service visit [] = []
each_service visit (s ∷ ss) = visit s ++ each_service visit ss

-- `gatt_db_find_information`
unfoldable pub gatt_db_find_information : Db → (start_handle end_handle : ℕ) → List Attribute
gatt_db_find_information db start_handle end_handle =
    each_service (find_information start_handle end_handle) db.services

-- the loop of `read_by_type` over one service
unfoldable pub by_type_loop :
    (start_handle end_handle : ℕ) → Uuid → List (Option Attribute) → List Attribute
by_type_loop start_handle end_handle type [] = []
by_type_loop start_handle end_handle type (none ∷ slots) =
    by_type_loop start_handle end_handle type slots
by_type_loop start_handle end_handle type (some a ∷ slots) =
    let rest = by_type_loop start_handle end_handle type slots in
    if ltb a.handle start_handle
    then rest
    else if ltb end_handle a.handle
    then []
    else if uuid_equal type a.uuid
    then a ∷ rest
    else rest

-- `read_by_type`
unfoldable pub read_by_type : (start_handle end_handle : ℕ) → Uuid → Service → List Attribute
read_by_type start_handle end_handle type s =
    if not s.active then [] else by_type_loop start_handle end_handle type (attributes s)

-- `gatt_db_read_by_type`
unfoldable pub gatt_db_read_by_type : Db → (start_handle end_handle : ℕ) → Uuid → List Attribute
gatt_db_read_by_type db start_handle end_handle type =
    each_service (read_by_type start_handle end_handle type) db.services

-- the loop of `find_by_type`, which looks at every attribute; `value` is NULL.
unfoldable pub find_by_type_loop :
    (start_handle end_handle : ℕ) → Uuid → List (Option Attribute) → List Attribute
find_by_type_loop start_handle end_handle type [] = []
find_by_type_loop start_handle end_handle type (none ∷ slots) =
    find_by_type_loop start_handle end_handle type slots
find_by_type_loop start_handle end_handle type (some a ∷ slots) =
    let rest = find_by_type_loop start_handle end_handle type slots in
    if ltb a.handle start_handle || ltb end_handle a.handle
    then rest
    else if uuid_equal type a.uuid
    then a ∷ rest
    else rest

-- `find_by_type`
unfoldable pub find_by_type : (start_handle end_handle : ℕ) → Uuid → Service → List Attribute
find_by_type start_handle end_handle type s =
    if not s.active then [] else find_by_type_loop start_handle end_handle type (attributes s)

-- `gatt_db_find_by_type`: what `func` is called with, in order; it returns their number.
unfoldable pub gatt_db_find_by_type : Db → (start_handle end_handle : ℕ) → Uuid → List Attribute
gatt_db_find_by_type db start_handle end_handle type =
    each_service (find_by_type start_handle end_handle type) db.services

-- the test for the UUID in `foreach_service_in_range`; `uuid` may be NULL
unfoldable pub is_service_of : Option Uuid → Service → Bool
is_service_of none s = true
is_service_of (some uuid) s =
    uuid_equal (elim (get_service_uuid s) [ none ↦ unspec | some u ↦ u ]) uuid

-- the services that `foreach_service_in_range` passes on
unfoldable pub in_service_range : (start_handle end_handle : ℕ) → Option Uuid → Service → Bool
in_service_range start_handle end_handle uuid s =
    let svc_start = s.declaration.handle in
    not (ltb end_handle svc_start || ltb svc_start start_handle) && is_service_of uuid s

-- the services that pass, in order
unfoldable pub services_where : (Service → Bool) → List Service → List Attribute
services_where test [] = []
services_where test (s ∷ ss) =
    let rest = services_where test ss in if test s then s.declaration ∷ rest else rest

-- `gatt_db_foreach_service_in_range`: what `func` is called with
unfoldable pub gatt_db_foreach_service_in_range :
    Db → Option Uuid → (start_handle end_handle : ℕ) → List Attribute
gatt_db_foreach_service_in_range db uuid start_handle end_handle =
    if ltb end_handle start_handle
    then []
    else services_where (in_service_range start_handle end_handle uuid) db.services

-- `gatt_db_foreach_service`
unfoldable pub gatt_db_foreach_service : Db → Option Uuid → List Attribute
gatt_db_foreach_service db uuid = gatt_db_foreach_service_in_range db uuid 0x0001 0xffff

-- the test for the type in `gatt_db_service_foreach`; `uuid` may be NULL
unfoldable pub has_type : Option Uuid → Attribute → Bool
has_type none a = true
has_type (some uuid) a = uuid_equal uuid a.uuid

-- the loop of `gatt_db_service_foreach`
unfoldable pub service_loop : Option Uuid → List (Option Attribute) → List Attribute
service_loop uuid [] = []
service_loop uuid (none ∷ slots) = service_loop uuid slots
service_loop uuid (some a ∷ slots) =
    let rest = service_loop uuid slots in if has_type uuid a then a ∷ rest else rest

-- `gatt_db_service_foreach`: what `func` is called with
unfoldable pub gatt_db_service_foreach : Service → Option Uuid → List Attribute
gatt_db_service_foreach s uuid = service_loop uuid (attributes s)

-- `gatt_db_service_foreach_char` and `gatt_db_service_foreach_incl`
unfoldable pub gatt_db_service_foreach_char : Service → List Attribute
gatt_db_service_foreach_char s = gatt_db_service_foreach s (some characteristic_uuid)

unfoldable pub gatt_db_service_foreach_incl : Service → List Attribute
gatt_db_service_foreach_incl s = gatt_db_service_foreach s (some included_service_uuid)

-- whether the loop over descriptors ends at an attribute
unfoldable pub ends_descriptors : Attribute → Bool
ends_descriptors a =
    uuid_equal characteristic_uuid a.uuid || uuid_equal included_service_uuid a.uuid

-- the second loop of `gatt_db_service_foreach_desc`
unfoldable pub descriptor_loop : List (Option Attribute) → List Attribute
descriptor_loop [] = []
descriptor_loop (none ∷ slots) = descriptor_loop slots
descriptor_loop (some a ∷ slots) =
    let rest = descriptor_loop slots in if ends_descriptors a then [] else a ∷ rest

-- its first loop, which goes behind the value of the characteristic: the pointer of an attribute is the
-- slot of its service that holds it, and `i` the slot that the loop has come to.
unfoldable pub behind_value : (slot i : ℕ) → List (Option Attribute) → List (Option Attribute)
behind_value slot i [] = []
behind_value slot i (a ∷ slots) =
    let later = behind_value slot (i + 1) slots in if i == slot then drop 1 slots else later

-- `gatt_db_service_foreach_desc` of the attribute in a slot of these; nothing for NULL
unfoldable pub foreach_desc_of : List (Option Attribute) → (slot : ℕ) → List Attribute
foreach_desc_of slots slot = elim (get_elem? slots slot) [
  | none ↦ []
  | some none ↦ []
  | some (some a) ↦
      if not (uuid_equal characteristic_uuid a.uuid)
      then []
      else descriptor_loop (behind_value slot 0 slots)
]

unfoldable pub gatt_db_service_foreach_desc : Service → (slot : ℕ) → List Attribute
unfolding foreach_desc_of
gatt_db_service_foreach_desc s slot = foreach_desc_of (attributes s) slot
