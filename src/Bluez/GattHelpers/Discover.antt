-- ===== src/Bluez/GattHelpers/Discover.antt =====
-- lib/bluez/gatt-helpers.c: what a discovery does with each response.
use minipro.Base.{
  ℕ, zero, suc, ◌+◌, ◌-◌, ◌%◌, ◌^◌, Bool, true, false, not, ◌&&◌, ◌||◌, Option, none, some, List,
  [], ◌∷◌, ◌++◌, ◌==◌, ltb, if◌then◌else◌, length, take, drop,
}
use minipro.Base.Bytes.{le16}
use minipro.Bluez.Uuid.{Uuid, unspec, bt_uuid_to_le}
use minipro.Bluez.Att.Calls.{is_empty}
use minipro.Bluez.GattHelpers.{
  Result, Request, get_le16, result_append, process_error, find_info_rsp, find_by_type_val_rsp,
  read_by_type_rsp, read_by_grp_type_rsp,
}

-- What a callback ends with: another request that it sends, the call of the callback of the discovery
-- with `success` and the error code, or a read out of bounds or division by zero.
pub data Next : Type 0 where
  asks : (opcode : ℕ) (pdu : List ℕ) → Next
  completes : (success : Bool) (ecode : ℕ) → Next
  faults : Next

-- `discovery_op_complete`: BT_ATT_ERROR_ATTRIBUTE_NOT_FOUND is 0x0A. The callback gets the results
-- exactly if `success` is set.
unfoldable pub discovery_op_complete : (success : Bool) (ecode : ℕ) → Request → Next × Request
discovery_op_complete success ecode op =
    (completes (success || (ecode == 0x0A && not (is_empty op.results))) ecode, op)

-- what a callback finds: memory for a result, and whether `bt_att_send` accepts another request
pub record Luck : Type 0 where
  pub mem : Bool
  pub sends : Bool

-- the bytes of a request for what begins at a handle
abbrev pub range_pdu : Request → List ℕ
range_pdu op = le16 op.start_handle ++ le16 op.end_handle

-- what `bt_uuid_to_le` writes; a request has no unspecified UUID where this is sent.
abbrev pub uuid_bytes : Uuid → List ℕ
uuid_bytes uuid = elim (bt_uuid_to_le uuid) [ none ↦ [] | some bytes ↦ bytes ]

-- the next request, if it can be sent
abbrev pub ask : Luck → (opcode : ℕ) (pdu : List ℕ) → Request → Next × Request
ask luck opcode pdu op =
    if luck.sends then (asks opcode pdu, op) else discovery_op_complete false 0 op

-- `op->start_handle = last + 1`
abbrev pub from_next : ℕ → Request → Request
from_next last op = record op { start_handle = (last + 1) % 2 ^ 16 }

-- The end handle of the last group is put right: the bytes of `put_le16(end, pdu + at)`.
abbrev pub put_le16_at : ℕ → ℕ → List ℕ → List ℕ
put_le16_at at v pdu = take at pdu ++ (le16 v ++ drop (at + 2) pdu)

-- the result that was appended last, with other bytes
abbrev pub change_last : (List ℕ → List ℕ) → List Result → List Result
change_last f [] = []
change_last f (r ∷ []) = record r { pdu = f r.pdu } ∷ []
change_last f (r ∷ s ∷ rs) = r ∷ change_last f (s ∷ rs)

-- `read_by_grp_type_cb` once it has stored the response
unfoldable pub group_stored :
    Luck → (last_end data_length list_length : ℕ) → Request → Next × Request
group_stored luck last_end data_length list_length op =
    if ltb last_end op.start_handle
    then discovery_op_complete false 0 op
    else let op' = from_next last_end op in
      if ltb last_end op.end_handle
      then ask luck 0x10 (range_pdu op' ++ le16 op'.service_type) op'
      else if last_end == 65535 && not (last_end == op.end_handle)
      then discovery_op_complete true 0 (record op' {
        results =
            change_last (put_le16_at (list_length - data_length + 2) op.end_handle) op'.results;
      })
      else discovery_op_complete true 0 op'

-- `read_by_grp_type_cb`; an empty `pdu` is NULL.
unfoldable pub read_by_grp_type_cb : Luck → (opcode : ℕ) → List ℕ → Request → Next × Request
unfolding group_stored
read_by_grp_type_cb luck opcode [] op =
    discovery_op_complete false (if opcode == 0x01 then process_error [] else 0) op
read_by_grp_type_cb luck opcode (data_length ∷ bytes) op =
    let list_length = length bytes in
    if opcode == 0x01
    then discovery_op_complete false (process_error (data_length ∷ bytes)) op
    else if not (opcode == read_by_grp_type_rsp) || ltb list_length 6
    then discovery_op_complete false 0 op
    else if (not (data_length == 6) && not (data_length == 20))
        || not (list_length % data_length == 0)
    then discovery_op_complete false 0 op
    else if not luck.mem
    then discovery_op_complete false 0 op
    else group_stored luck (get_le16 (drop (list_length - data_length + 2) bytes)) data_length
        list_length (result_append opcode bytes data_length op)

-- `find_by_type_val_cb` once it has stored the response; nothing that it sets follows the last request,
-- so that the end is reported as a failure.
unfoldable pub value_stored : Luck → (last_end : ℕ) → Request → Next × Request
value_stored luck last_end op =
    if ltb last_end op.start_handle
    then discovery_op_complete false 0 op
    else let op' = from_next last_end op in
      if ltb last_end op.end_handle
      then ask luck 0x06 (range_pdu op' ++ (le16 op'.service_type ++ uuid_bytes op'.uuid)) op'
      else discovery_op_complete false 0 op'

unfoldable pub find_by_type_val_cb : Luck → (opcode : ℕ) → List ℕ → Request → Next × Request
unfolding value_stored
find_by_type_val_cb luck opcode pdu op =
    if opcode == 0x01
    then discovery_op_complete false (process_error pdu) op
    else if not (opcode == find_by_type_val_rsp) || (length pdu == 0 || not (length pdu % 4 == 0))
    then discovery_op_complete false 0 op
    else if not luck.mem
    then discovery_op_complete false 0 op
    else value_stored luck (get_le16 (drop (length pdu - 2) pdu)) (result_append opcode pdu 4 op)

-- the end of `discover_chrcs_cb` and of `read_by_type_cb`, where `rest` is what follows the range in the
-- next request
unfoldable pub list_stored :
    Luck → (opcode : ℕ) (rest : List ℕ) (last : ℕ) → Request → Next × Request
list_stored luck opcode rest last op =
    if ltb last op.start_handle
    then discovery_op_complete false 0 op
    else let op' = from_next last op in
      if not (last == op.end_handle)
      then ask luck opcode (range_pdu op' ++ rest) op'
      else discovery_op_complete true 0 op'

-- `discover_chrcs_cb`: GATT_CHARAC_UUID is 0x2803.
unfoldable pub discover_chrcs_cb : Luck → (opcode : ℕ) → List ℕ → Request → Next × Request
unfolding list_stored
discover_chrcs_cb luck opcode [] op =
    discovery_op_complete false (if opcode == 0x01 then process_error [] else 0) op
discover_chrcs_cb luck opcode (data_length ∷ bytes) op =
    let list_length = length bytes in
    if opcode == 0x01
    then discovery_op_complete false (process_error (data_length ∷ bytes)) op
    else if not (opcode == read_by_type_rsp) || ltb list_length 7
    then discovery_op_complete false 0 op
    else if (not (data_length == 7) && not (data_length == 21))
        || not (list_length % data_length == 0)
    then discovery_op_complete false 0 op
    else if not luck.mem
    then discovery_op_complete false 0 op
    else list_stored luck 0x08 (le16 0x2803) (get_le16 (drop (list_length - data_length) bytes))
        (result_append opcode bytes data_length op)

-- `read_by_type_cb`: the length of the entries is taken from the response as it is.
unfoldable pub read_by_type_cb : Luck → (opcode : ℕ) → List ℕ → Request → Next × Request
unfolding list_stored
read_by_type_cb luck opcode [] op =
    discovery_op_complete false (if opcode == 0x01 then process_error [] else 0) op
read_by_type_cb luck opcode (data_length ∷ bytes) op =
    let list_length = length bytes in
    if opcode == 0x01
    then discovery_op_complete false (process_error (data_length ∷ bytes)) op
    else if not (opcode == read_by_type_rsp)
    then discovery_op_complete false 0 op
    else if data_length == 0
    then (faults, op)
    else if not (list_length % data_length == 0)
    then discovery_op_complete false 0 op
    else if not luck.mem
    then discovery_op_complete false 0 op
    else if data_length == 1 || list_length == 0
    then (faults, op)
    else list_stored luck 0x08 (uuid_bytes op.uuid)
        (get_le16 (drop (list_length - data_length) bytes))
        (result_append opcode bytes data_length op)

-- `discover_descs_cb` once it has stored the response: it succeeds also when the next request cannot be
-- sent.
unfoldable pub info_stored : Luck → (last : ℕ) → Request → Next × Request
info_stored luck last op =
    if ltb last op.start_handle
    then discovery_op_complete false 0 op
    else let op' = from_next last op in
      if not (last == op.end_handle) && luck.sends
      then (asks 0x04 (range_pdu op'), op')
      else discovery_op_complete true 0 op'

unfoldable pub discover_descs_cb : Luck → (opcode : ℕ) → List ℕ → Request → Next × Request
unfolding info_stored
discover_descs_cb luck opcode [] op =
    discovery_op_complete false (if opcode == 0x01 then process_error [] else 0) op
discover_descs_cb luck opcode (format ∷ bytes) op =
    let list_length = length bytes in
    let data_length = (if format == 0x01 then 4 else 18) in
    if opcode == 0x01
    then discovery_op_complete false (process_error (format ∷ bytes)) op
    else if not (opcode == find_info_rsp) || ltb list_length 4
    then discovery_op_complete false 0 op
    else if not (format == 0x01) && not (format == 0x02)
    then discovery_op_complete false 0 op
    else if not (list_length % data_length == 0)
    then discovery_op_complete false 0 op
    else if not luck.mem
    then discovery_op_complete false 0 op
    else info_stored luck (get_le16 (drop (list_length - data_length) bytes))
        (result_append opcode bytes data_length op)

-- `discover_services` and the other functions that begin a discovery: the request, and its first PDU.
-- GATT_PRIM_SVC_UUID is 0x2800, GATT_SND_SVC_UUID 0x2801.
abbrev pub begin : (start end service_type : ℕ) → Uuid → Request
begin start end service_type uuid = record {
  start_handle = start;
  end_handle = end;
  uuid = uuid;
  service_type = service_type;
  results = [];
}

abbrev pub service_type_of : (primary : Bool) → ℕ
service_type_of true = 0x2800
service_type_of false = 0x2801

-- `discover_services` with a UUID, or without; an unspecified UUID is refused.
unfoldable pub discover_services :
    Option Uuid → (start end : ℕ) (primary : Bool) → Option (ℕ × List ℕ × Request)
discover_services none start end primary =
    let op = begin start end (service_type_of primary) unspec in
    some (0x10, range_pdu op ++ le16 op.service_type, op)
discover_services (some unspec) start end primary = none
discover_services (some uuid) start end primary =
    let op = begin start end (service_type_of primary) uuid in
    some (0x06, range_pdu op ++ (le16 op.service_type ++ uuid_bytes uuid), op)

unfoldable pub bt_gatt_discover_characteristics : (start end : ℕ) → ℕ × List ℕ × Request
bt_gatt_discover_characteristics start end =
    let op = begin start end 0 unspec in (0x08, range_pdu op ++ le16 0x2803, op)

unfoldable pub bt_gatt_read_by_type : Uuid → (start end : ℕ) → Option (ℕ × List ℕ × Request)
bt_gatt_read_by_type unspec start end = none
bt_gatt_read_by_type uuid start end =
    let op = begin start end 0 uuid in some (0x08, range_pdu op ++ uuid_bytes uuid, op)

unfoldable pub bt_gatt_discover_descriptors : (start end : ℕ) → ℕ × List ℕ × Request
bt_gatt_discover_descriptors start end =
    let op = begin start end 0 unspec in (0x04, range_pdu op, op)

-- A discovery against whatever answers: the response may depend on the round, counted down, and on the
-- request. The result is none when the rounds are used up.
unfoldable pub discover :
    (rounds : ℕ) (cb : Luck → (opcode : ℕ) → List ℕ → Request → Next × Request) (luck : ℕ → Luck)
    (server : ℕ → (opcode : ℕ) → List ℕ → ℕ × List ℕ) (opcode : ℕ) (pdu : List ℕ)
    → Request
    → Option (Next × Request)
discover zero cb luck server opcode pdu op = none
discover (suc rounds) cb luck server opcode pdu op =
    let (rsp_opcode, rsp_pdu) = server rounds opcode pdu in
    let (next, op') = cb (luck rounds) rsp_opcode rsp_pdu op in
    elim next [
      | asks opcode' pdu' ↦ discover rounds cb luck server opcode' pdu' op'
      | completes success ecode ↦ some (completes success ecode, op')
      | faults ↦ some (faults, op')
    ]
