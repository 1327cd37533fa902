-- ===== src/Bluez/GattHelpers/Iter.antt =====
-- lib/bluez/gatt-helpers.c: `struct bt_gatt_iter`, which goes through a chain of results.
use minipro.Base.{
  ℕ, zero, suc, ◌+◌, ◌-◌, ◌/◌, ◌%◌, ◌^◌, Bool, true, false, not, ◌&&◌, Option, none, some, List, [],
  ◌∷◌, ◌==◌, if◌then◌else◌, length, drop, take,
}
use minipro.Bluez.Uuid.{Uuid, unspec, uuid_to_uuid128, u128_bytes}
use minipro.Bluez.GattHelpers.{
  Result, Request, get_le16, convert_uuid_le, find_info_rsp, find_by_type_val_rsp, read_by_type_rsp,
  read_by_grp_type_rsp,
}

-- `struct bt_gatt_iter`: the results from the current one on, none left for NULL, and the position
pub data Iter : Type 0 where
  at : List Result → ℕ → Iter

-- `bt_gatt_iter_init` on a chain that is not NULL
abbrev pub bt_gatt_iter_init : List Result → Iter
bt_gatt_iter_init results = at results 0

-- the end of every `next`: the position behind the entry, or the next result
abbrev pub advance : Result → List Result → ℕ → Iter
advance r rs pos =
    if pos + r.data_len == length r.pdu then at rs 0 else at (r ∷ rs) (pos + r.data_len)

-- whether a request has a UUID, so that its results are values and not declarations
abbrev pub is_unspec : Uuid → Bool
is_unspec unspec = true
is_unspec _ = false

-- what is found about a service: its range and its UUID, none if `uuid` is left as it was
pub record ServiceFound : Type 0 where
  pub start : ℕ
  pub end : ℕ
  pub uuid : Option (List ℕ)

unfoldable pub bt_gatt_iter_next_service : Request → Iter → Option (ServiceFound × Iter)
bt_gatt_iter_next_service op (at [] pos) = none
bt_gatt_iter_next_service op (at (r ∷ rs) pos) =
    let ptr = drop pos r.pdu in
    if r.opcode == read_by_grp_type_rsp
    then some (
      record {
        start = get_le16 ptr;
        end = get_le16 (drop 2 ptr);
        uuid = convert_uuid_le (drop 4 ptr) (r.data_len - 4);
      },
      advance r rs pos,
    )
    else if r.opcode == find_by_type_val_rsp
    then some (
      record {
        start = get_le16 ptr;
        end = get_le16 (drop 2 ptr);
        uuid = some (u128_bytes (uuid_to_uuid128 op.uuid unspec));
      },
      advance r rs pos,
    )
    else none

pub record CharacteristicFound : Type 0 where
  pub start : ℕ
  pub end : ℕ
  pub value_handle : ℕ
  pub properties : ℕ
  pub uuid : Option (List ℕ)

-- the end of a characteristic: before the next one, or the end of the request
abbrev pub end_before : Request → Iter → ℕ
end_before op (at [] pos) = op.end_handle
end_before op (at (r ∷ rs) pos) = (get_le16 (drop pos r.pdu) + (2 ^ 16 - 1)) % 2 ^ 16

abbrev pub first_byte : List ℕ → ℕ
first_byte [] = 0
first_byte (b ∷ bs) = b

unfoldable pub bt_gatt_iter_next_characteristic :
    Request → Iter → Option (CharacteristicFound × Iter)
bt_gatt_iter_next_characteristic op (at [] pos) = none
bt_gatt_iter_next_characteristic op (at (r ∷ rs) pos) =
    let ptr = drop pos r.pdu in
    if not (r.opcode == read_by_type_rsp)
    then none
    else if not (is_unspec op.uuid)
    then none
    else if not (r.data_len == 21) && not (r.data_len == 7)
    then none
    else some (
      record {
        start = get_le16 ptr;
        end = end_before op (advance r rs pos);
        value_handle = get_le16 (drop 3 ptr);
        properties = first_byte (drop 2 ptr);
        uuid = convert_uuid_le (drop 5 ptr) (r.data_len - 5);
      },
      advance r rs pos,
    )

unfoldable pub bt_gatt_iter_next_descriptor : Iter → Option ((ℕ × Option (List ℕ)) × Iter)
bt_gatt_iter_next_descriptor (at [] pos) = none
bt_gatt_iter_next_descriptor (at (r ∷ rs) pos) =
    let ptr = drop pos r.pdu in
    if not (r.opcode == find_info_rsp)
    then none
    else some ((get_le16 ptr, convert_uuid_le (drop 2 ptr) (r.data_len - 2)), advance r rs pos)

-- a handle with its value, of `length` bytes
unfoldable pub bt_gatt_iter_next_read_by_type : Request → Iter → Option ((ℕ × List ℕ) × Iter)
bt_gatt_iter_next_read_by_type op (at [] pos) = none
bt_gatt_iter_next_read_by_type op (at (r ∷ rs) pos) =
    let ptr = drop pos r.pdu in
    if not (r.opcode == read_by_type_rsp)
    then none
    else if is_unspec op.uuid
    then none
    else some ((get_le16 ptr, take (r.data_len - 2) (drop 2 ptr)), advance r rs pos)

pub record IncludedFound : Type 0 where
  pub handle : ℕ
  pub start : ℕ
  pub end : ℕ
  pub uuid : Option (List ℕ)

-- An include with a 128-bit UUID: entry number `n` of its result has the UUID in the n-th result behind
-- it, which was read for it.
abbrev pub included_apart : Result → List Result → ℕ → Option (IncludedFound × Iter)
included_apart r rs pos =
    let ptr = drop pos r.pdu in
    elim (drop (pos / r.data_len) rs) [
      | [] ↦ none
      | read_result ∷ behind ↦ some (
        record {
          handle = get_le16 ptr;
          start = get_le16 (drop 2 ptr);
          end = get_le16 (drop 4 ptr);
          uuid = convert_uuid_le read_result.pdu read_result.data_len;
        },
        if pos + r.data_len == length r.pdu then at behind 0 else at (r ∷ rs) (pos + r.data_len),
      )
    ]

unfoldable pub bt_gatt_iter_next_included_service : Request → Iter → Option (IncludedFound × Iter)
bt_gatt_iter_next_included_service op (at [] pos) = none
bt_gatt_iter_next_included_service op (at (r ∷ rs) pos) =
    let ptr = drop pos r.pdu in
    if not (r.opcode == read_by_type_rsp)
    then none
    else if not (is_unspec op.uuid)
    then none
    else if r.data_len == 8
    then some (
      record {
        handle = get_le16 ptr;
        start = get_le16 (drop 2 ptr);
        end = get_le16 (drop 4 ptr);
        uuid = convert_uuid_le (drop 6 ptr) 2;
      },
      advance r rs pos,
    )
    else if r.data_len == 6
    then included_apart r rs pos
    else none

-- Everything that an iterator finds, in at most `rounds` calls.
unfoldable pub collect : {A : Type 0} → (rounds : ℕ) → (Iter → Option (A × Iter)) → Iter → List A
collect zero next iter = []
collect (suc rounds) next iter = elim (next iter) [
  | none ↦ []
  | some (a, iter') ↦ a ∷ collect rounds next iter'
]
