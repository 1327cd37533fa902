-- ===== src/Bluez/GattDb/Notify.antt =====
-- lib/bluez/gatt-db.c: those who are told of services, and the services that come and go. The callbacks
-- are taken not to call the database back; what they are given is a list of calls.
pub mod Registered
pub mod Told
mod Tests
use minipro.Base.{
  ℕ, zero, suc, ◌+◌, ◌-◌, ◌%◌, ◌^◌, Bool, true, false, not, ◌&&◌, ◌||◌, Option, none, some, List,
  [], ◌∷◌, ◌++◌, ◌==◌, ltb, if◌then◌else◌,
}
use minipro.Bluez.GattDb.{Service}

-- `struct notify`: whether each callback is there
pub record Notify : Type 0 where
  pub id : ℕ
  pub service_added : Bool
  pub service_removed : Bool
  pub destroy : Bool

-- the part of `struct gatt_db` that notifications need
pub record Notifier : Type 0 where
  pub ref_count : ℕ
  pub next_notify_id : ℕ
  pub notify_list : List Notify

-- a call of a listener by its id, with the first handle of the service
pub data Call : Type 0 where
  added removed : (id handle : ℕ) → Call
  destroyed : ℕ → Call

-- `int` and `unsigned int`
abbrev pub up : ℕ → ℕ
up n = (n + 1) % 2 ^ 32

abbrev pub down : ℕ → ℕ
down n = (n + (2 ^ 32 - 1)) % 2 ^ 32

-- `gatt_db_register`, for which there is memory: the id, or 0
unfoldable pub gatt_db_register :
    Notifier → (service_added service_removed destroy : Bool) → ℕ × Notifier
gatt_db_register db service_added service_removed destroy =
    let id = if ltb db.next_notify_id 1 then 1 else db.next_notify_id in
    let notify : Notify = record {
      id = id;
      service_added = service_added;
      service_removed = service_removed;
      destroy = destroy;
    } in
    if not (service_added || service_removed)
    then (0, db)
    else (id, record db { next_notify_id = up id; notify_list = db.notify_list ++ (notify ∷ []) })

-- `queue_find` with `match_notify_id`, and `queue_remove` of what it found
unfoldable pub remove_notify : (id : ℕ) → List Notify → Option (Notify × List Notify)
remove_notify id [] = none
remove_notify id (n ∷ ns) =
    if n.id == id
    then some (n, ns)
    else elim (remove_notify id ns) [ none ↦ none | some (m, rest) ↦ some (m, n ∷ rest) ]

-- `notify_destroy`
unfoldable pub notify_destroy : Notify → List Call
notify_destroy n = if n.destroy then destroyed n.id ∷ [] else []

-- `gatt_db_unregister`
unfoldable pub gatt_db_unregister : Notifier → (id : ℕ) → Bool × List Call × Notifier
gatt_db_unregister db id =
    if id == 0 then (false, [], db) else elim (remove_notify id db.notify_list) [
      | none ↦ (false, [], db)
      | some (n, rest) ↦ (true, notify_destroy n, record db { notify_list = rest })
    ]

-- `handle_notify`; `none` is a call of NULL.
unfoldable pub handle_notify : (handle : ℕ) → (is_added : Bool) → Notify → Option Call
handle_notify handle true n = if n.service_added then some (added n.id handle) else none
handle_notify handle false n = if n.service_removed then some (removed n.id handle) else none

unfoldable pub notify_all : (handle : ℕ) → (is_added : Bool) → List Notify → Option (List Call)
notify_all handle is_added [] = some []
notify_all handle is_added (n ∷ ns) = elim (handle_notify handle is_added n) [
  | none ↦ none
  | some c ↦ elim (notify_all handle is_added ns) [ none ↦ none | some cs ↦ some (c ∷ cs) ]
]

-- `notify_service_changed`; the reference that it takes is given back at the end.
unfoldable pub notify_service_changed : Notifier → Service → (is_added : Bool) → Option (List Call)
notify_service_changed db s is_added = notify_all (s.declaration.handle) is_added db.notify_list

-- `gatt_db_service_set_active`
unfoldable pub gatt_db_service_set_active :
    Notifier → Service → (active : Bool) → Option (List Call × Service)
gatt_db_service_set_active db s active =
    let told = notify_service_changed db s active in
    let same = if s.active then active else not active in
    if same
    then some ([], s)
    else elim told [ none ↦ none | some cs ↦ some (cs, record s { active = active }) ]

-- `gatt_db_service_destroy`: the calls that it makes
unfoldable pub gatt_db_service_destroy : Notifier → Service → Option (List Call)
gatt_db_service_destroy db s =
    let told = notify_service_changed db s false in if s.active then told else some []

-- `gatt_db_service_set_claimed`
unfoldable pub gatt_db_service_set_claimed : Service → (claimed : Bool) → Service
gatt_db_service_set_claimed s claimed = record s { claimed = claimed }

-- `gatt_db_ref` and `gatt_db_unref`; the latter says whether the database is destroyed.
unfoldable pub gatt_db_ref : Notifier → Notifier
gatt_db_ref db = record db { ref_count = up db.ref_count }

unfoldable pub gatt_db_unref : Notifier → Bool × Notifier
gatt_db_unref db = (down db.ref_count == 0, record db { ref_count = down db.ref_count })
