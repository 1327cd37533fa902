-- ===== src/Bluez/GattDb/Values.antt =====
-- lib/bluez/gatt-db.c: reading and writing the values of attributes, stored or by callback.
pub mod Stored
pub mod Once
mod Tests
use minipro.Base.{
  ℕ, zero, suc, ◌+◌, ◌-◌, ◌%◌, ◌^◌, Bool, true, false, not, ◌&&◌, ◌||◌, Option, none, some, List,
  [], ◌∷◌, ◌++◌, ◌==◌, ltb, leb, if◌then◌else◌, length, take, drop, replicate,
}
use minipro.Bluez.Uuid.{memcpy_at}
use minipro.Bluez.GattDb.{Attribute, u16}

-- BT_ATT_ERROR_INVALID_OFFSET
abbrev pub invalid_offset : ℕ
invalid_offset = 0x07

-- `gatt_db_attribute_read` of a value that is stored: the error and the bytes that `func` is given
unfoldable pub read_stored : Attribute → (offset : ℕ) → ℕ × List ℕ
read_stored a offset =
    if ltb (length a.value) offset then (invalid_offset, []) else (0, drop offset a.value)

-- `gatt_db_attribute_write` of a value that is stored, for which there is memory; `rest` is what
-- `realloc` leaves behind the old bytes.
unfoldable pub write_stored : Attribute → (offset : ℕ) → (value rest : List ℕ) → Attribute
write_stored a offset value rest =
    let len = length value in
    let size = length a.value in
    let behind' = if size == 0 then replicate offset 0 else rest in
    let grown = take offset (a.value ++ behind') ++ value in
    if len == 0
    then a
    else if size == 0 || (leb size offset || ltb (size - offset) len)
    then record a { value = take (u16 (len + offset)) grown }
    else record a { value = memcpy_at a.value offset value }

-- `gatt_db_attribute_reset`
unfoldable pub gatt_db_attribute_reset : Attribute → Attribute
gatt_db_attribute_reset a = record a { value = [] }

-- What a request ends with: `err` of the callback that answers it, -ETIMEDOUT or -ECANCELED.
pub data Ending : Type 0 where
  answered : ℕ → Ending
  timed_out canceled : Ending

-- `struct pending_read` and `struct pending_write`, with `func` and its user data as one
pub record Request (C : Type 0) : Type 0 where
  pub id : ℕ
  pub func : C

-- the requests of an attribute that are under way (`pending_reads` or `pending_writes`), the number of
-- the last one (`read_id` or `write_id`), and the calls that have been made
pub record Pending (C : Type 0) : Type 0 where
  pub last_id : ℕ
  pub requests : List (Request C)
  pub calls : List (C × Ending)

-- `gatt_db_attribute_read` and `gatt_db_attribute_write` of an attribute with callbacks, for which
-- there is memory
unfoldable pub start : {C : Type 0} → C → Pending C → Pending C
start func p =
    let id = (p.last_id + 1) % 2 ^ 32 in
    record p { last_id = id; requests = p.requests ++ (record { id = id; func = func } ∷ []) }

-- `queue_remove_if` with `find_pending`
unfoldable pub take_request :
    {C : Type 0} → (id : ℕ) → List (Request C) → Option (C × List (Request C))
take_request id [] = none
take_request id (r ∷ rs) =
    if r.id == id
    then some (r.func, rs)
    else elim (take_request id rs) [ none ↦ none | some (func, rest) ↦ some (func, r ∷ rest) ]

-- `gatt_db_attribute_read_result` and `gatt_db_attribute_write_result`
unfoldable pub finish : {C : Type 0} → (id err : ℕ) → Pending C → Bool × Pending C
finish id err p = if id == 0 then (false, p) else elim (take_request id p.requests) [
  | none ↦ (false, p)
  | some (func, rest) ↦
      (true, record p { requests = rest; calls = p.calls ++ ((func, answered err) ∷ []) })
]

-- `queue_remove` of the request whose timer has run out, the one at `place'`
unfoldable pub drop_request : {C : Type 0} → ℕ → List (Request C) → Option (C × List (Request C))
drop_request place' [] = none
drop_request zero (r ∷ rs) = some (r.func, rs)
drop_request (suc place') (r ∷ rs) = elim (drop_request place' rs) [
  | none ↦ none
  | some (func, rest) ↦ some (func, r ∷ rest)
]

-- `read_timeout` and `write_timeout`
unfoldable pub expire : {C : Type 0} → ℕ → Pending C → Pending C
expire place' p = elim (drop_request place' p.requests) [
  | none ↦ p
  | some (func, rest) ↦ record p { requests = rest; calls = p.calls ++ ((func, timed_out) ∷ []) }
]

-- `pending_read_free` or `pending_write_free` on each
unfoldable pub cancel_all : {C : Type 0} → List (Request C) → List (C × Ending)
cancel_all [] = []
cancel_all (r ∷ rs) = (r.func, canceled) ∷ cancel_all rs

-- `attribute_destroy`
unfoldable pub attribute_destroy : {C : Type 0} → Pending C → Pending C
attribute_destroy p = record p { requests = []; calls = p.calls ++ cancel_all p.requests }
