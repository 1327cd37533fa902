-- ===== src/Bluez/GattDb/Attributes.antt =====
-- lib/bluez/gatt-db.c: the attributes of a service, and the values of those that describe others.
pub mod Dense
pub mod Added
pub mod Included
mod Tests
use minipro.Base.{
  ℕ, zero, suc, ◌+◌, ◌-◌, ◌^◌, ◌<◌, Bool, true, false, not, ◌&&◌, ◌||◌, Option, none, some, List,
  [], ◌∷◌, ◌++◌, ◌==◌, ltb, leb, if◌then◌else◌, length, get_elem?, set, drop,
}
use minipro.Base.Bytes.{le16, from_le16}
use minipro.Bluez.Uuid.{Uuid, unspec, uuid_to_le, le_to_uuid}
use minipro.Bluez.GattDb.{
  Attribute, Service, attributes, u16, uuid_equal, new_attribute, service_start, service_end,
  characteristic_uuid, included_service_uuid, secondary_service_uuid,
}

-- the loop of `get_attribute_index`
unfoldable pub index_loop : (bound i : ℕ) → List (Option Attribute) → ℕ
index_loop bound i [] = i
index_loop bound i (none ∷ slots) = i
index_loop bound i (some a ∷ slots) =
    let next = index_loop bound (i + 1) slots in if ltb i bound then next else i

-- `get_attribute_index`; a service has one handle at least, and `end_offset` is 0 or 1.
unfoldable pub get_attribute_index : Service → (end_offset : ℕ) → ℕ
get_attribute_index s end_offset =
    let i = index_loop (s.num_handles - end_offset) 0 (attributes s) in
    if i == s.num_handles - end_offset then 0 else i

-- `get_handle_at_index`, of a slot that is in use
unfoldable pub get_handle_at_index : Service → (index : ℕ) → ℕ
get_handle_at_index s index = elim (get_elem? (attributes s) index) [
  | some (some a) ↦ a.handle
  | _ ↦ 0
]

-- `service->attributes[index] = a`, for an index above 0
unfoldable pub set_attribute : Service → (index : ℕ) → Attribute → Service
set_attribute s index a = record s { slots = set s.slots (index - 1) (some a) }

-- what a caller hands over for an attribute: `permissions`, the two callbacks and `user_data`
pub record AttributeData : Type 0 where
  pub permissions : ℕ
  pub read_func : ℕ
  pub write_func : ℕ
  pub user_data : ℕ

unfoldable pub set_attribute_data : Attribute → AttributeData → Attribute
set_attribute_data a d = record a {
  permissions = d.permissions;
  read_func = d.read_func;
  write_func = d.write_func;
  user_data = d.user_data;
}

-- the value of a characteristic declaration
abbrev pub declaration_value : (properties handle : ℕ) → Uuid → List ℕ
declaration_value properties handle uuid = properties ∷ (le16 handle ++ (uuid_to_le unspec uuid).0)

-- `service_insert_characteristic`; there is memory for both attributes.
unfoldable pub service_insert_characteristic :
    Service → (handle : ℕ) → Uuid → (properties : ℕ) → AttributeData → Option Attribute × Service
service_insert_characteristic s handle uuid properties data' =
    let i = get_attribute_index s 1 in
    let h = if handle == 0 then u16 (get_handle_at_index s (i - 1) + 2) else handle in
    let declared =
      new_attribute (u16 (h + (2 ^ 16 - 1))) characteristic_uuid
        (declaration_value properties h uuid) in
    let a = set_attribute_data (new_attribute h uuid []) data' in
    if not (handle == 0) && leb handle (s.declaration.handle)
    then (none, s)
    else if handle == 2 ^ 16 - 1
    then (none, s)
    else if i == 0
    then (none, s)
    else (some a, set_attribute (set_attribute s i declared) (i + 1) a)

-- `gatt_db_service_insert_characteristic` and `gatt_db_service_add_characteristic`, of an attribute of
-- the service `s`
unfoldable pub gatt_db_service_insert_characteristic :
    Service → (handle : ℕ) → Uuid → (properties : ℕ) → AttributeData → Option Attribute × Service
gatt_db_service_insert_characteristic s handle uuid properties data' =
    if handle == 0 then (none, s) else service_insert_characteristic s handle uuid properties data'

unfoldable pub gatt_db_service_add_characteristic :
    Service → Uuid → (properties : ℕ) → AttributeData → Option Attribute × Service
gatt_db_service_add_characteristic s uuid properties data' =
    service_insert_characteristic s 0 uuid properties data'

-- `service_insert_descriptor`
unfoldable pub service_insert_descriptor :
    Service → (handle : ℕ) → Uuid → AttributeData → Option Attribute × Service
service_insert_descriptor s handle uuid data' =
    let i = get_attribute_index s 0 in
    let h = if handle == 0 then u16 (get_handle_at_index s (i - 1) + 1) else handle in
    let a = set_attribute_data (new_attribute h uuid []) data' in
    if i == 0
    then (none, s)
    else if not (handle == 0) && leb handle (s.declaration.handle)
    then (none, s)
    else (some a, set_attribute s i a)

-- `gatt_db_service_insert_descriptor` and `gatt_db_service_add_descriptor`
unfoldable pub gatt_db_service_insert_descriptor :
    Service → (handle : ℕ) → Uuid → AttributeData → Option Attribute × Service
gatt_db_service_insert_descriptor s handle uuid data' =
    if handle == 0 then (none, s) else service_insert_descriptor s handle uuid data'

unfoldable pub gatt_db_service_add_descriptor :
    Service → Uuid → AttributeData → Option Attribute × Service
gatt_db_service_add_descriptor s uuid data' = service_insert_descriptor s 0 uuid data'

-- the value of an include declaration: the handles of the service, and its UUID if it has 16 bits
unfoldable pub included_value : Service → List ℕ
included_value t =
    let start = t.declaration.handle in
    le16 start
    ++ (le16 (u16 (start + t.num_handles + (2 ^ 16 - 1)))
        ++ (if length (t.declaration.value) == 2 then t.declaration.value else []))

-- `gatt_db_service_add_included` of the service `t`; `attribute_update` gives it the next handle.
unfoldable pub gatt_db_service_add_included : Service → (t : Service) → Option Attribute × Service
gatt_db_service_add_included s t =
    let i = get_attribute_index s 0 in
    let h = u16 (get_handle_at_index s (i - 1) + 1) in
    let a = new_attribute h included_service_uuid (included_value t) in
    if i == 0 then (none, s) else (some a, set_attribute s i a)

-- `gatt_db_attribute_get_service_data`: the handles, whether it is primary, and the UUID
unfoldable pub get_service_data : Service → ℕ × ℕ × Bool × Option Uuid
get_service_data s = (
  service_start s,
  service_end s,
  not (uuid_equal s.declaration.uuid secondary_service_uuid),
  le_to_uuid s.declaration.value,
)

-- `gatt_db_attribute_get_char_data`: handle, value handle, properties and UUID
unfoldable pub get_char_data : Attribute → Option (ℕ × ℕ × ℕ × Option Uuid)
get_char_data a =
    if not (uuid_equal characteristic_uuid a.uuid)
    then none
    else if not (length a.value == 5) && not (length a.value == 19)
    then none
    else elim a.value [
      | p ∷ lo ∷ hi ∷ rest ↦ some (a.handle, from_le16 lo hi, p, le_to_uuid rest)
      | _ ↦ none
    ]

-- `gatt_db_attribute_get_incl_data`: handle, and the first and the last handle of the service
unfoldable pub get_incl_data : Attribute → Option (ℕ × ℕ × ℕ)
get_incl_data a =
    if not (uuid_equal included_service_uuid a.uuid)
    then none
    else if ltb (length a.value) 4 || ltb 6 (length a.value)
    then none
    else elim a.value [
      | p ∷ q ∷ r ∷ t ∷ rest ↦ some (a.handle, from_le16 p q, from_le16 r t)
      | _ ↦ none
    ]
