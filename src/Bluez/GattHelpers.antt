-- ===== src/Bluez/GattHelpers.antt =====
-- lib/bluez/gatt-helpers.c: the chain of results that a discovery collects, and the procedures that
-- collect it. A chain is the list of its results; a request is what its callbacks read and change.

pub mod Discover
pub mod Ends
pub mod Iter
pub mod Entries
pub mod Counts
pub mod Visits
mod Tests
use mathlib.Core.List.{reverse}
use minipro.Base.{
  ℕ, zero, suc, ◌+◌, ◌-◌, ◌*◌, ◌/◌, ◌%◌, ◌^◌, Bool, true, false, not, ◌&&◌, ◌||◌, Option, none,
  some, List, [], ◌∷◌, ◌++◌, ◌==◌, ltb, leb, if◌then◌else◌, length, take, drop,
}
use minipro.Base.Bytes.{le16, from_le16}
use minipro.Bluez.Uuid.{Uuid, bluetooth_base_uuid}

-- `struct bt_gatt_result`; `pdu_len` is the length of `pdu`, and `op` the request that holds the chain.
pub record Result : Type 0 where
  pub opcode : ℕ
  pub pdu : List ℕ
  pub data_len : ℕ

-- the opcodes that the results have
abbrev pub find_info_rsp : ℕ
find_info_rsp = 0x05

abbrev pub find_by_type_val_rsp : ℕ
find_by_type_val_rsp = 0x07

abbrev pub read_by_type_rsp : ℕ
read_by_type_rsp = 0x09

abbrev pub read_by_grp_type_rsp : ℕ
read_by_grp_type_rsp = 0x11

-- `struct bt_gatt_request`: what a discovery asks for, and what it has
pub record Request : Type 0 where
  pub start_handle : ℕ
  pub end_handle : ℕ
  pub uuid : Uuid
  pub service_type : ℕ
  pub results : List Result

-- `get_le16` of two bytes, 0 if they are not there
abbrev pub get_le16 : List ℕ → ℕ
get_le16 (lo ∷ hi ∷ rest) = from_le16 lo hi
get_le16 _ = 0

-- `result_append`, for which there is memory
unfoldable pub result_append : (opcode : ℕ) (pdu : List ℕ) (data_len : ℕ) → Request → Request
result_append opcode pdu data_len op = record op {
  results = op.results ++ (record { opcode = opcode; pdu = pdu; data_len = data_len } ∷ []);
}

-- `result_element_count`
unfoldable pub result_element_count : List Result → ℕ
result_element_count [] = 0
result_element_count (r ∷ rs) = (length r.pdu / r.data_len + result_element_count rs) % 2 ^ 32

unfoldable pub bt_gatt_result_service_count : List Result → ℕ
bt_gatt_result_service_count [] = 0
bt_gatt_result_service_count (r ∷ rs) =
    if not (r.opcode == read_by_grp_type_rsp) && not (r.opcode == find_by_type_val_rsp)
    then 0
    else result_element_count (r ∷ rs)

unfoldable pub bt_gatt_result_characteristic_count : List Result → ℕ
bt_gatt_result_characteristic_count [] = 0
bt_gatt_result_characteristic_count (r ∷ rs) =
    if not (r.opcode == read_by_type_rsp)
    then 0
    else if not (r.data_len == 21) && not (r.data_len == 7)
    then 0
    else result_element_count (r ∷ rs)

unfoldable pub bt_gatt_result_descriptor_count : List Result → ℕ
bt_gatt_result_descriptor_count [] = 0
bt_gatt_result_descriptor_count (r ∷ rs) =
    if not (r.opcode == find_info_rsp) then 0 else result_element_count (r ∷ rs)

-- `convert_uuid_le`: the 16 bytes that it writes, none if it writes nothing
unfoldable pub convert_uuid_le : List ℕ → (len : ℕ) → Option (List ℕ)
convert_uuid_le src len =
    if len == 16
    then some (reverse (take 16 src))
    else if not (len == 2)
    then none
    else some (take 2 bluetooth_base_uuid ++ (reverse (take 2 src) ++ drop 4 bluetooth_base_uuid))

-- `process_error`
unfoldable pub process_error : List ℕ → ℕ
process_error (opcode ∷ lo ∷ hi ∷ ecode ∷ []) = ecode
process_error _ = 0
