-- ===== src/Bluez/GattDb.antt =====
-- lib/bluez/gatt-db.c: the data of a GATT database and the operations on its services.
-- The queue of services is the list of its values, as Queue.Cells relates the two, and a
-- service is the value itself, so `attrib->service` is the service that an operation is called on.
pub mod Order
pub mod Insert
pub mod Add
pub mod Enclosed
pub mod Clear
pub mod Lookup
pub mod Attributes
pub mod Discovery
pub mod Values
pub mod Notify
pub mod Groups
pub mod Remove
pub mod Descriptors
mod Tests
use Prim.Native.Nat.{Ordering}
use minipro.Base.{
  ℕ, zero, suc, ◌+◌, ◌-◌, ◌%◌, ◌^◌, ◌<◌, Bool, true, false, not, ◌&&◌, ◌||◌, Option, none, some,
  List, [], ◌∷◌, ◌++◌, max, ◌==◌, ltb, leb, if◌then◌else◌, length, replicate,
}
use minipro.Bluez.Uuid.{Uuid, unspec, uuid16, uuid128, uuid_cmp, uuid_to_le, le_to_uuid}

-- `bt_uuid_cmp(a, b) == 0`, with its locals zero before they are set
unfoldable pub uuid_equal : Uuid → Uuid → Bool
uuid_equal a b = elim (uuid_cmp unspec unspec a b) [ Ordering.eq ↦ true | _ ↦ false ]

abbrev pub primary_service_uuid : Uuid
primary_service_uuid = uuid16 0x2800

abbrev pub secondary_service_uuid : Uuid
secondary_service_uuid = uuid16 0x2801

abbrev pub included_service_uuid : Uuid
included_service_uuid = uuid16 0x2802

abbrev pub characteristic_uuid : Uuid
characteristic_uuid = uuid16 0x2803

-- `struct gatt_db_attribute`, without its queues of reads and writes under way; `value_len` is the
-- length of `value`. The callbacks and their data are pointers, 0 for NULL.
pub record Attribute : Type 0 where
  pub handle : ℕ
  pub uuid : Uuid
  pub permissions : ℕ
  pub value : List ℕ
  pub read_func : ℕ
  pub write_func : ℕ
  pub user_data : ℕ

-- `struct gatt_db_service`. The first of its `attributes`, which is never NULL, is `declaration`; the
-- others are `slots`.
pub record Service : Type 0 where
  pub active : Bool
  pub claimed : Bool
  pub num_handles : ℕ
  pub declaration : Attribute
  pub slots : List (Option Attribute)

abbrev pub attributes : Service → List (Option Attribute)
attributes s = some s.declaration ∷ s.slots

-- `struct gatt_db`, without the notify list
pub record Db : Type 0 where
  pub next_handle : ℕ
  pub services : List Service

-- conversion to `uint16_t`
abbrev pub u16 : ℕ → ℕ
u16 n = n % 2 ^ 16

unfoldable pub gatt_db_new : Db
gatt_db_new = record { next_handle = 1; services = [] }

-- `new_attribute`, for which there is memory
unfoldable pub new_attribute : (handle : ℕ) → (type : Uuid) → (value : List ℕ) → Attribute
new_attribute handle type value = record {
  handle = handle;
  uuid = type;
  permissions = 0;
  value = value;
  read_func = 0;
  write_func = 0;
  user_data = 0;
}

-- `gatt_db_service_get_handles`
unfoldable pub service_start : Service → ℕ
service_start s = s.declaration.handle

unfoldable pub service_end : Service → ℕ
service_end s = u16 (s.declaration.handle + s.num_handles + (2 ^ 16 - 1))

-- `gatt_db_attribute_get_service_uuid`
unfoldable pub get_service_uuid : Service → Option Uuid
get_service_uuid s =
    let len = length (s.declaration.value) in
    if len == 2
    then le_to_uuid (s.declaration.value)
    else if len == 16
    then le_to_uuid (s.declaration.value)
    else none

abbrev pub service_type : (primary : Bool) → Uuid
service_type primary = if primary then primary_service_uuid else secondary_service_uuid

-- the service that `gatt_db_service_create` builds, with the handle count that its caller sets. For an
-- unspecified UUID the source copies as many bytes as a variable says that is not set; here they are 16.
unfoldable pub new_service : Uuid → (handle : ℕ) → (primary : Bool) → (num_handles : ℕ) → Service
new_service uuid handle primary num_handles = record {
  active = false;
  claimed = false;
  num_handles = num_handles;
  declaration = new_attribute handle (service_type primary) (uuid_to_le unspec uuid).0;
  slots = replicate (num_handles - 1) none;
}

-- `gatt_db_service_create`
unfoldable pub gatt_db_service_create :
    Uuid → (handle : ℕ) → (primary : Bool) → (num_handles : ℕ) → Option Service
gatt_db_service_create uuid handle primary num_handles =
    if ltb num_handles 1 then none else some (new_service uuid handle primary num_handles)

-- what `find_insert_loc` returns: a service in the way, or the number of services to go behind
pub data Location : Type 0 where
  taken : Service → Location
  behind : ℕ → Location

unfoldable pub find_insert_loc : (start end : ℕ) → (passed : ℕ) → List Service → Location
find_insert_loc start end passed [] = behind passed
find_insert_loc start end passed (s ∷ ss) =
    if leb (service_start s) start && leb start (service_end s)
    then taken s
    else if leb (service_start s) end && leb end (service_end s)
    then taken s
    else if ltb end (service_start s)
    then behind passed
    else find_insert_loc start end (passed + 1) ss

-- `queue_push_head` for none, `queue_push_after` else
unfoldable pub insert_at : ℕ → Service → List Service → List Service
insert_at zero s ss = s ∷ ss
insert_at (suc n) s [] = s ∷ []
insert_at (suc n) s (t ∷ ss) = t ∷ insert_at n s ss

-- the test for a service that is there already
unfoldable pub service_matches : Service → (handle : ℕ) → Uuid → (primary : Bool) → ℕ → Bool
service_matches s handle uuid primary num_handles =
    let value = get_service_uuid s in
    uuid_equal (s.declaration.uuid) (service_type primary)
    && (uuid_equal (elim value [ none ↦ unspec | some u ↦ u ]) uuid
        && (s.num_handles == num_handles && s.declaration.handle == handle))

-- the end of `gatt_db_insert_service`: the new service goes in, and `next_handle` moves past it
unfoldable pub place : Db → ℕ → Service → Db
place db n s = record {
  next_handle = u16 (max (s.declaration.handle + s.num_handles) db.next_handle);
  services = insert_at n s db.services;
}

-- `gatt_db_insert_service`: the declaration that it returns, and the database
unfoldable pub gatt_db_insert_service :
    Db → (handle : ℕ) → Uuid → (primary : Bool) → (num_handles : ℕ) → Option Attribute × Db
gatt_db_insert_service db handle uuid primary num_handles =
    if ltb handle 1 || (ltb num_handles 1 || ltb (2 ^ 16 - 1) (handle + num_handles - 1))
    then (none, db)
    else elim (find_insert_loc handle (handle + num_handles - 1) 0 db.services) [
      | taken s ↦
          if service_matches s handle uuid primary num_handles
          then (some s.declaration, db)
          else (none, db)
      | behind n ↦ elim (gatt_db_service_create uuid handle primary num_handles) [
        | none ↦ (none, db)
        | some s ↦ (some s.declaration, place db n s)
      ]
    ]

unfoldable pub gatt_db_add_service :
    Db → Uuid → (primary : Bool) → (num_handles : ℕ) → Option Attribute × Db
gatt_db_add_service db uuid primary num_handles =
    gatt_db_insert_service db db.next_handle uuid primary num_handles

-- `gatt_db_clear`
unfoldable pub gatt_db_clear : Db → Db
gatt_db_clear db = record { next_handle = 0; services = [] }

-- `match_range`
unfoldable pub match_range : (start end : ℕ) → Service → Bool
match_range start end s = leb (service_start s) end && leb start (service_end s)

-- `queue_remove_all` with `match_range`
unfoldable pub drop_range : (start end : ℕ) → List Service → List Service
drop_range start end [] = []
drop_range start end (s ∷ ss) =
    if match_range start end s then drop_range start end ss else s ∷ drop_range start end ss

-- `gatt_db_clear_range`
unfoldable pub gatt_db_clear_range : Db → (start_handle end_handle : ℕ) → Bool × Db
gatt_db_clear_range db start_handle end_handle =
    if ltb end_handle start_handle
    then (false, db)
    else (true, record db { services = drop_range start_handle end_handle db.services })

-- `gatt_db_isempty`
unfoldable pub gatt_db_isempty : Db → Bool
gatt_db_isempty db = elim db.services [ [] ↦ true | _ ↦ false ]
