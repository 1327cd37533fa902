-- ===== src/Bluez/GattClient/LongWrite.antt =====
-- lib/bluez/gatt-client.c: writing a value that may be longer than a PDU.
use minipro.Base.{
  ℕ, zero, suc, ◌+◌, ◌-◌, ◌%◌, ◌^◌, min, Bool, true, false, not, ◌&&◌, ◌||◌, List, [], ◌∷◌, ◌++◌,
  ◌==◌, ltb, leb, if◌then◌else◌, length, take, drop,
}
use minipro.Base.Bytes.{le16}
use minipro.Bluez.Att.Opcodes.{error_rsp}
use minipro.Bluez.GattHelpers.{get_le16, process_error}
use minipro.Bluez.GattClient.{LongWriteOp, Flight, prepares, executes, Client}

abbrev pub prep_write_req : ℕ
prep_write_req = 0x16

abbrev pub prep_write_rsp : ℕ
prep_write_rsp = 0x17

abbrev pub exec_write_req : ℕ
exec_write_req = 0x18

abbrev pub exec_write_rsp : ℕ
exec_write_rsp = 0x19

-- a call of `bt_att_send` that the bearer takes, and one that it does not
unfoldable pub taken : (opcode : ℕ) (pdu : List ℕ) → Flight → Client → Client
taken opcode pdu f c = record c {
  attempts = c.attempts + 1;
  outstanding = c.outstanding ++ (f ∷ []);
  sent = record { opcode = opcode; pdu = pdu } ∷ c.sent;
}

unfoldable pub refused : Client → Client
refused c = record c { attempts = c.attempts + 1 }

-- the call `op->callback`
unfoldable pub tell_written :
    LongWriteOp → (success reliable_error : Bool) (att_ecode : ℕ) → Client → Client
tell_written op success reliable_error att_ecode c = record c {
  told =
      record {
        id = op.id;
        success = success;
        reliable_error = reliable_error;
        att_ecode = att_ecode;
      }
      ∷ c.told;
}

-- the part of the value that the next request writes
abbrev pub chunk : LongWriteOp → List ℕ
chunk op = take op.cur_length (drop op.index op.value)

-- the bytes of that request
abbrev pub prep_pdu : LongWriteOp → List ℕ
prep_pdu op = le16 op.value_handle ++ (le16 (op.offset + op.index) ++ chunk op)

-- `complete_write_long_op` before it sends the end
abbrev pub completed :
    LongWriteOp → (success : Bool) (att_ecode : ℕ) (reliable_error : Bool) → LongWriteOp
completed op success att_ecode reliable_error = record op {
  success = success;
  att_ecode = att_ecode;
  reliable_error = reliable_error;
}

-- `complete_write_long_op`, where `go_on` is `start_next_long_write`
unfoldable pub complete_with :
    (sends : ℕ → Bool) (go_on : Client → Client)
    → LongWriteOp
    → (success : Bool) (att_ecode : ℕ) (reliable_error : Bool) → Client
    → Client
unfolding taken refused tell_written
complete_with sends go_on op success att_ecode reliable_error c =
    if sends c.attempts
    then taken exec_write_req ((if success then 1 else 0) ∷ [])
        (executes (completed op success att_ecode reliable_error)) c
    else go_on (tell_written op false reliable_error att_ecode (refused c))

-- `handle_next_prep_write`
unfoldable pub prep_with :
    (sends : ℕ → Bool) (go_on : Client → Client) → LongWriteOp → Client → Client
unfolding complete_with
prep_with sends go_on op c =
    if sends c.attempts
    then taken prep_write_req (prep_pdu op) (prepares op) c
    else complete_with sends go_on op false 0 false (refused c)

-- `start_next_long_write` for this queue: what cannot be sent is dropped, and the next one is tried.
unfoldable pub start_queue : (sends : ℕ → Bool) → List LongWriteOp → Client → Client
unfolding prep_with
start_queue sends [] c = record c { in_long_write = false; long_write_queue = [] }
start_queue sends (op ∷ ops) c =
    prep_with sends (start_queue sends ops) op (record c { long_write_queue = ops })

unfoldable pub start_next_long_write : (sends : ℕ → Bool) → Client → Client
unfolding start_queue
start_next_long_write sends c = start_queue sends c.long_write_queue c

unfoldable pub complete_write_long_op :
    (sends : ℕ → Bool)
    → LongWriteOp
    → (success : Bool) (att_ecode : ℕ) (reliable_error : Bool) → Client
    → Client
unfolding complete_with start_next_long_write
complete_write_long_op sends = complete_with sends (start_next_long_write sends)

unfoldable pub handle_next_prep_write : (sends : ℕ → Bool) → LongWriteOp → Client → Client
unfolding prep_with start_next_long_write
handle_next_prep_write sends = prep_with sends (start_next_long_write sends)

-- `execute_write_cb`; an empty `pdu` is NULL.
unfoldable pub execute_write_cb :
    (sends : ℕ → Bool) → (opcode : ℕ) → List ℕ → LongWriteOp → Client → Client
unfolding start_next_long_write tell_written
execute_write_cb sends opcode pdu op c = start_next_long_write sends (
    if opcode == error_rsp
    then tell_written op false op.reliable_error (process_error pdu) c
    else tell_written op (op.success && (opcode == exec_write_rsp && length pdu == 0))
        op.reliable_error op.att_ecode c)

-- whether two lists of bytes are the same: `!memcmp`
unfoldable pub same : List ℕ → List ℕ → Bool
same [] [] = true
same (x ∷ xs) (y ∷ ys) = x == y && same xs ys
same _ _ = false

-- what a reliable write asks of the response: the length, the handle and the offset, and the bytes
abbrev pub echoes : List ℕ → LongWriteOp → Bool
echoes pdu op =
    (length pdu == op.cur_length + 4
      && (get_le16 pdu == op.value_handle && get_le16 (drop 2 pdu) == op.offset + op.index))
    && same (drop 4 pdu) (chunk op)

-- the operation that writes what follows the bytes before `index`
abbrev pub next_part : (mtu index : ℕ) → LongWriteOp → LongWriteOp
next_part mtu index op = record op {
  index = index;
  cur_length = min (length op.value - index) (mtu - 5);
}

-- `prepare_write_cb` for a response that it takes. No MTU is less than 23.
unfoldable pub part_written : (sends : ℕ → Bool) → LongWriteOp → Client → Client
unfolding handle_next_prep_write complete_write_long_op
part_written sends op c =
    let next_index = (op.index + op.cur_length) % 2 ^ 16 in
    if next_index == length op.value
    then complete_write_long_op sends op true 0 false c
    else if leb (c.mtu - 5) op.cur_length
    then handle_next_prep_write sends (next_part c.mtu next_index op) c
    else complete_write_long_op sends op true 0 false c

unfoldable pub prepare_write_cb :
    (sends : ℕ → Bool) → (opcode : ℕ) → List ℕ → LongWriteOp → Client → Client
unfolding part_written complete_write_long_op
prepare_write_cb sends opcode pdu op c =
    if opcode == error_rsp
    then complete_write_long_op sends op false (process_error pdu) false c
    else if not (opcode == prep_write_rsp)
    then complete_write_long_op sends op false 0 false c
    else if op.reliable && not (echoes pdu op)
    then complete_write_long_op sends op false 0 true c
    else part_written sends op c

-- the id that `request_create` gives a request, and the client with the id that follows
abbrev pub request_id : Client → ℕ
request_id c = if ltb c.next_request_id 1 then 1 else c.next_request_id

unfoldable pub request_create : Client → Client
request_create c = record c { next_request_id = (request_id c + 1) % 2 ^ 32 }

-- the operation that `bt_gatt_client_write_long_value` makes
abbrev pub new_op :
    (reliable : Bool) (value_handle offset : ℕ) (value : List ℕ) → Client → LongWriteOp
new_op reliable value_handle offset value c = record {
  reliable = reliable;
  success = false;
  att_ecode = 0;
  reliable_error = false;
  value_handle = value_handle;
  value = value;
  offset = offset;
  index = 0;
  cur_length = min (length value) (c.mtu - 5);
  id = request_id c;
}

-- `bt_gatt_client_write_long_value` of a client: the request id, or 0, and the client
unfoldable pub bt_gatt_client_write_long_value :
    (sends : ℕ → Bool) (reliable : Bool) (value_handle offset : ℕ) → List ℕ → Client → ℕ × Client
unfolding taken refused request_create
bt_gatt_client_write_long_value sends reliable value_handle offset value c =
    if ltb 65535 (length value + offset)
    then (0, c)
    else if length value == 0
    then (0, c)
    else let op = new_op reliable value_handle offset value c in
      let c' = request_create c in
      if c.in_long_write || ltb 0 c.reliable_write_session_id
      then (op.id, record c' { long_write_queue = c.long_write_queue ++ (op ∷ []) })
      else if sends c.attempts
      then (
        op.id,
        record (taken prep_write_req (prep_pdu op) (prepares op) c') { in_long_write = true },
      )
      else (0, refused c')

-- The response to the request that was taken first.
unfoldable pub respond_to : (sends : ℕ → Bool) → (opcode : ℕ) → List ℕ → Flight → Client → Client
unfolding prepare_write_cb execute_write_cb
respond_to sends opcode pdu (prepares op) c = prepare_write_cb sends opcode pdu op c
respond_to sends opcode pdu (executes op) c = execute_write_cb sends opcode pdu op c

unfoldable pub respond_first :
    (sends : ℕ → Bool) → (opcode : ℕ) → List ℕ → List Flight → Client → Client
unfolding respond_to
respond_first sends opcode pdu [] c = c
respond_first sends opcode pdu (f ∷ fs) c =
    respond_to sends opcode pdu f (record c { outstanding = fs })

-- rounds of requests and responses with a server
unfoldable pub exchange :
    (sends : ℕ → Bool) (server : List Flight → ℕ × List ℕ) → (rounds : ℕ) → Client → Client
unfolding respond_first
exchange sends server zero c = c
exchange sends server (suc rounds) c =
    let rsp = server c.outstanding in
    exchange sends server rounds (respond_first sends rsp.0 rsp.1 c.outstanding c)
