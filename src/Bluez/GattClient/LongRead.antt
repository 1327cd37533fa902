-- ===== src/Bluez/GattClient/LongRead.antt =====
-- lib/bluez/gatt-client.c: reading a value that may be longer than a PDU.
use minipro.Base.{
  ℕ, zero, suc, ◌+◌, ◌-◌, ◌%◌, ◌^◌, Bool, true, false, not, Option, none, some, List, [], ◌++◌,
  ◌==◌, ltb, leb, if◌then◌else◌, length, take,
}
use minipro.Base.Bytes.{le16}
use minipro.Bluez.GattHelpers.{process_error}
use minipro.Bluez.GattHelpers.Discover.{Next, asks, completes, faults, Luck}

-- `struct read_long_op`; `value` is what `iov` holds.
pub record ReadLongOp : Type 0 where
  pub value_handle : ℕ
  pub offset : ℕ
  pub value : List ℕ

-- `BT_ATT_MAX_VALUE_LEN`
abbrev pub max_value_len : ℕ
max_value_len = 512

abbrev pub read_blob_req : ℕ
read_blob_req = 0x0C

abbrev pub read_blob_rsp : ℕ
read_blob_rsp = 0x0D

-- the length that `append_chunk` copies, a 16-bit number
abbrev pub chunk_len : (offset len : ℕ) → ℕ
chunk_len offset len =
    if ltb max_value_len (offset + len) then (max_value_len + 2 ^ 16 - offset) % 2 ^ 16 else len

-- `append_chunk`, for which there is memory; nothing if it reads behind the data
unfoldable pub append_chunk : ReadLongOp → List ℕ → Option ReadLongOp
append_chunk op bytes =
    let len = chunk_len op.offset (length bytes) in
    if ltb (length bytes) len
    then none
    else some
        (record op { offset = (op.offset + len) % 2 ^ 16; value = op.value ++ take len bytes })

-- the bytes of the request for what follows
abbrev pub blob_pdu : ReadLongOp → List ℕ
blob_pdu op = le16 op.value_handle ++ le16 op.offset

-- `read_long_cb` when the bytes are appended, of which there were `len` in the response
unfoldable pub chunk_read :
    Luck → (mtu len : ℕ) → Option ReadLongOp → ReadLongOp → Next × ReadLongOp
chunk_read luck mtu len none op = (faults, op)
chunk_read luck mtu len (some op') op =
    if leb max_value_len op'.offset
    then (completes true 0, op')
    else if leb (mtu - 1) len
    then (if luck.sends then (asks read_blob_req (blob_pdu op'), op') else (completes false 0, op'))
    else (completes true 0, op')

-- `read_long_cb`: what it ends with, and the operation, the bytes of which the callback gets
unfoldable pub read_long_cb : Luck → (mtu opcode : ℕ) → List ℕ → ReadLongOp → Next × ReadLongOp
unfolding append_chunk chunk_read
read_long_cb luck mtu opcode pdu op =
    if opcode == 0x01
    then (completes false (process_error pdu), op)
    else if not (opcode == read_blob_rsp)
    then (completes false 0, op)
    else if length pdu == 0
    then (completes true 0, op)
    else if not luck.mem
    then (completes false 0, op)
    else chunk_read luck mtu (length pdu) (append_chunk op pdu) op

-- `bt_gatt_client_read_long_value`: the request, if it can be sent
unfoldable pub bt_gatt_client_read_long_value :
    (sends : Bool) (value_handle offset : ℕ) → Option (List ℕ × ReadLongOp)
bt_gatt_client_read_long_value sends value_handle offset =
    let op : ReadLongOp = record { value_handle = value_handle; offset = offset; value = [] } in
    if sends then some (blob_pdu op, op) else none

-- the rounds of a long read with a server
unfoldable pub read_long :
    (rounds : ℕ) (luck : ℕ → Luck) (mtu : ℕ) (server : ℕ → List ℕ → ℕ × List ℕ) (pdu : List ℕ)
    → ReadLongOp
    → Option (Next × ReadLongOp)
unfolding read_long_cb
read_long zero luck mtu server pdu op = none
read_long (suc rounds) luck mtu server pdu op =
    let rsp = server rounds pdu in
    let r = read_long_cb (luck rounds) mtu rsp.0 rsp.1 op in
    elim r.0 [
      | asks opcode pdu' ↦ read_long rounds luck mtu server pdu' r.1
      | completes success ecode ↦ some (completes success ecode, r.1)
      | faults ↦ some (faults, r.1)
    ]
