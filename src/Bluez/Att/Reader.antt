-- ===== src/Bluez/Att/Reader.antt =====
-- lib/bluez/att.c: what is received, the loss of the connection, and the run of a bearer.
use minipro.Base.{
  ℕ, zero, suc, ◌+◌, ◌-◌, ◌*◌, ◌/◌, ◌%◌, Bool, true, false, not, ◌&&◌, ◌||◌, Option, none, some,
  List, [], ◌∷◌, ◌==◌, ltb, if◌then◌else◌, length, take, drop, is_some,
}
use minipro.Base.Words.{ℤ}
use minipro.Bluez.Att.{
  Notify, Disconn, Event, notified, disconnected, dangling, Att, logged, io_shutdown, Memory, Send,
  signature_len,
}
use minipro.Bluez.Att.Opcodes.{
  request, response, confirmation, get_op_type, opcode_match, is_request, is_signed, error_rsp,
  ecode_from_error,
}
use minipro.Bluez.Att.Calls.{is_empty, bt_att_send, bt_att_cancel_all, bt_att_unregister_all}
use minipro.Bluez.Att.Life.{Call, perform, perform_all, bt_att_ref, bt_att_unref}
use minipro.Bluez.Att.Writer.{on_writable, handle_rsp, handle_conf, timeout_cb}

-- `get_le32` at the beginning of bytes that are there
abbrev pub get_le32 : List ℕ → ℕ
get_le32 (a ∷ b ∷ c ∷ d ∷ rest) = a + 256 * b + 65536 * c + 16777216 * d
get_le32 _ = 0

-- `handle_signed` for a message with a signature of 12 bytes behind it, which the signature that is
-- made again overwrites
unfoldable pub sign_again : (message signature : List ℕ) → Att → Bool
sign_again message signature att = elim att.remote_sign [
  | none ↦ false
  | some sign ↦ elim (sign.counter (get_le32 signature)) [
    | none ↦ false
    | some sign_cnt ↦ is_some (att.crypto sign.key message sign_cnt)
  ]
]

unfoldable pub handle_signed : (pdu : List ℕ) → Att → Bool
unfolding sign_again
handle_signed pdu att =
    let split = length pdu - signature_len in
    if ltb (length pdu) (2 + signature_len)
    then false
    else sign_again (take split pdu) (drop split pdu) att

-- an error response: `pdu` of `respond_not_supported` and of `bt_att_send_error_rsp`, whose callers
-- ask for no answer
abbrev pub error_send : (opcode handle ecode : ℕ) → Memory → Send
error_send opcode handle ecode mem = record {
  opcode = error_rsp;
  pdu = some (opcode ∷ (handle % 256) ∷ (handle / 256 % 256) ∷ ecode ∷ []);
  len = 4;
  callback = 0;
  user_data = 0;
  destroy = 0;
  mem = mem;
}

-- `respond_not_supported`: BT_ATT_ERROR_REQUEST_NOT_SUPPORTED is 6.
unfoldable pub respond_not_supported : ℕ → Memory → Att → Att
respond_not_supported opcode mem att = (bt_att_send (error_send opcode 0 6 mem) att).1

unfoldable pub bt_att_send_error_rsp : (opcode handle : ℕ) (error : ℤ) → Memory → Att → ℕ × Att
bt_att_send_error_rsp opcode handle error mem att =
    if opcode == 0
    then (0, att)
    else bt_att_send (error_send opcode handle (ecode_from_error error) mem) att

-- the entry of the list with this id, and the one behind it
abbrev pub find_notify : ℕ → List Notify → Option Notify
find_notify id [] = none
find_notify id (n ∷ ns) = if n.id == id then some n else find_notify id ns

abbrev pub first_id : List Notify → Option ℕ
first_id [] = none
first_id (n ∷ ns) = some n.id

abbrev pub next_notify : ℕ → List Notify → Option ℕ
next_notify id [] = none
next_notify id (n ∷ ns) = if n.id == id then first_id ns else next_notify id ns

-- what the callbacks do, in the order in which they are called; the rest do nothing
abbrev pub react_of : List (List Call) → List Call
react_of [] = []
react_of (r ∷ rs) = r

abbrev pub later : List (List Call) → List (List Call)
later [] = []
later (r ∷ rs) = rs

-- `notify->callback(...)`
unfoldable pub tell : (opcode : ℕ) (pdu : List ℕ) → Notify → List Call → Att → Att
tell opcode pdu n react att =
    if n.callback == 0
    then att
    else perform_all react (logged (notified n.callback opcode pdu n.user_data) att)

-- The loop of `handle_notify`, where `entry` is the id of the next entry. One that a callback has taken
-- out meanwhile is freed memory.
unfoldable pub notify_loop :
    (rounds : ℕ) (entry : Option ℕ) (opcode : ℕ) (pdu : List ℕ)
    → List (List Call)
    → (found : Bool) → Att
    → Bool × Att
notify_loop zero entry opcode pdu reacts found att = (found, att)
notify_loop (suc rounds) none opcode pdu reacts found att = (found, att)
notify_loop (suc rounds) (some id) opcode pdu reacts found att =
    elim (find_notify id att.notify_list) [
      | none ↦ (found, logged dangling att)
      | some n ↦
          let hit = opcode_match n.opcode opcode in
          let att' = (if hit then tell opcode pdu n (react_of reacts) att else att) in
          let stop = hit && is_empty att'.notify_list in
          notify_loop rounds (if stop then none else next_notify id att.notify_list) opcode pdu
            (if hit then later reacts else reacts) (hit || found) att'
    ]

-- Each callback adds at most one entry for each call that it makes.
abbrev pub calls_in : List (List Call) → ℕ
calls_in [] = 0
calls_in (r ∷ rs) = length r + calls_in rs

unfoldable pub notify_all : (opcode : ℕ) (pdu : List ℕ) → List (List Call) → Memory → Att → Att
unfolding notify_loop respond_not_supported
notify_all opcode pdu reacts mem att =
    let att' = bt_att_ref att in
    let (found, told) =
      notify_loop (suc (length att'.notify_list + calls_in reacts)) (first_id att'.notify_list)
        opcode pdu reacts false att' in
    bt_att_unref (
      if not found && is_request (get_op_type opcode)
      then respond_not_supported opcode mem told
      else told)

unfoldable pub handle_notify : (opcode : ℕ) (pdu : List ℕ) → List (List Call) → Memory → Att → Att
unfolding handle_signed notify_all
handle_notify opcode pdu reacts mem att =
    if is_signed opcode && not att.ext_signed
    then if handle_signed pdu att
      then notify_all opcode (take (length pdu - signature_len) pdu) reacts mem att
      else att
    else notify_all opcode pdu reacts mem att

-- `can_read_data` for a PDU of one byte at least
unfoldable pub receive : (opcode : ℕ) (pdu : List ℕ) → List (List Call) → Memory → Att → Att
unfolding handle_notify
receive opcode pdu reacts mem att = elim (get_op_type opcode) [
  | response ↦ handle_rsp opcode pdu (react_of reacts) att
  | confirmation ↦ handle_conf pdu (react_of reacts) att
  | request ↦
      if att.in_req
      then io_shutdown att
      else handle_notify opcode pdu reacts mem (record att { in_req = true })
  | _ ↦ handle_notify opcode pdu reacts mem att
]

-- `can_read_data`; `bytes` is what can be read, none for an error.
unfoldable pub can_read_data : Option (List ℕ) → List (List Call) → Memory → Att → Att
unfolding receive
can_read_data none reacts mem att = att
can_read_data (some bytes) reacts mem att = elim (take att.mtu bytes) [
  | [] ↦ att
  | opcode ∷ pdu ↦ bt_att_unref (receive opcode pdu reacts mem (bt_att_ref att))
]

-- `queue_foreach` with `disconn_handler`, for handlers that do not call back
unfoldable pub tell_disconn : (err : ℕ) → List Disconn → List Event → List Event
tell_disconn err [] log = log
tell_disconn err (d ∷ ds) log =
    tell_disconn err ds
      (if d.callback == 0 then log else disconnected d.callback err d.user_data ∷ log)

-- `disconnect_cb`; `io_destroy` ends the watching.
unfoldable pub disconnect_cb : (err : ℕ) → Att → Att
disconnect_cb err att =
    let lost = bt_att_ref (bt_att_cancel_all (record att { io = false; writer_active = false })) in
    bt_att_unref
      (bt_att_unregister_all (record lost { log = tell_disconn err lost.disconn_list lost.log }))

-- What can happen to a bearer: its users call it, the main loop finds that its file can be written or
-- read, a timer runs out, the link is lost.
pub data Input : Type 0 where
  called : Call → Input
  writable : (sent : Bool) (timer : Option ℕ) → List Call → Input
  readable : Option (List ℕ) → List (List Call) → Memory → Input
  timeout : ℕ → List Call → Input
  hangup : (err : ℕ) → Input

unfoldable pub step : Input → Att → Att
step (called c) att = perform c att
step (writable sent timer react) att = on_writable sent timer react att
step (readable bytes reacts mem) att = can_read_data bytes reacts mem att
step (timeout id react) att = timeout_cb id react att
step (hangup err) att = disconnect_cb err att

unfoldable pub run : List Input → Att → Att
run [] att = att
run (i ∷ is) att = run is (step i att)
