-- ===== src/Bluez/Att/Tests.antt =====
-- Runs of an ATT bearer, and the theorems applied to them.
use minipro.Base.{
  ℕ, ◌+◌, ◌≡◌, ◌≢◌, refl, Bool, true, false, none, some, List, [], ◌∷◌, ◌++◌, arith, length, All,
}
use minipro.Bluez.Att.{
  Att, responded, destroyed, accepted, timer_removed, wrote, Memory, Send, Notify, encode_pdu,
  create_att_send_op, destroy_att_send_op, forget,
}
use minipro.Bluez.Att.Opcodes.{is_request, get_op_type, get_req_opcode, error_rsp}
use minipro.Bluez.Att.Calls.{
  can_send, bt_att_send, wakeup_writer, enqueue, bt_att_cancel_all, bt_att_unregister_all,
  cancel_pending_req, cancel_pending_ind, destroy_ops, destroy_notifies, destroy_disconns,
}
use minipro.Bluez.Att.Life.{
  Below, bt_att_new, bt_att_ref, bt_att_unref, bt_att_free, sends, perform, perform_all,
}
use minipro.Bluez.Att.Writer.{
  on_writable, can_write_data, pick_next_send_op, handle_rsp, match_rsp, finish_req, respond,
  drop_pending_req, written,
}
use minipro.Bluez.Att.Reader.{
  step, can_read_data, receive, Input, called, writable, readable, run, handle_signed, notify_loop,
}
use minipro.Bluez.Att.Holds.{paid, granted, owed, Held, IsRequestOp, IsIndicationOp, IsWriteOp}
use minipro.Bluez.Att.Run.{destroyed_once, run_kinds}
use minipro.Bluez.Att.Wakeups.{no_lost_wakeup}
use minipro.Bluez.Att.Drain.{sent, outgoing, pump, drained}
use minipro.Bluez.Att.Signed.{Encodes, handle_signed_forged, encode_pdu_bounds}
use minipro.Bluez.Att.Tables.{is_response, request-response}
use minipro.Bluez.Att.Heard.{heard, any_match, notify_loop-heard}

abbrev below : Below
below = record {
  watchable = true;
  l2cap = false;
  level = none;
  sets = false;
  crypto = λ _ _ _. none;
}

abbrev memory : Memory
memory = record { op_mem = true; pdu_mem = true; entry_mem = true; sign_cnt = 0 }

-- a read request with a callback and a destructor, and a command with neither
abbrev read_request : Send
read_request = record {
  opcode = 0x0a;
  pdu = some (3 ∷ 0 ∷ []);
  len = 2;
  callback = 5;
  user_data = 9;
  destroy = 6;
  mem = memory;
}

abbrev write_command : Send
write_command = record {
  opcode = 0x52;
  pdu = some (3 ∷ 0 ∷ 7 ∷ []);
  len = 3;
  callback = 0;
  user_data = 0;
  destroy = 0;
  mem = memory;
}

-- The request is sent and answered; a second one is under way.
abbrev exchange : List Input
exchange =
    called (sends read_request)
    ∷ writable true (some 4) []
    ∷ readable (some (0x0b ∷ 1 ∷ [])) [] memory
    ∷ called (sends read_request)
    ∷ writable true (some 8) []
    ∷ []

exchange_log :
    (bt_att_unref (run exchange (bt_att_new below true))).log
    ≡ timer_removed 8
      ∷ destroyed 6 9
      ∷ wrote (0x0a ∷ 3 ∷ 0 ∷ [])
      ∷ accepted 6 9
      ∷ destroyed 6 9
      ∷ timer_removed 4
      ∷ responded 5 0x0b (1 ∷ []) 9
      ∷ wrote (0x0a ∷ 3 ∷ 0 ∷ [])
      ∷ accepted 6 9
      ∷ []
unfolding run step perform bt_att_send create_att_send_op get_op_type encode_pdu wakeup_writer
    enqueue bt_att_new on_writable can_write_data pick_next_send_op can_read_data bt_att_ref
    bt_att_unref receive handle_rsp match_rsp finish_req respond perform_all drop_pending_req
    get_req_opcode written destroy_att_send_op bt_att_cancel_all bt_att_unregister_all
    cancel_pending_req cancel_pending_ind destroy_ops destroy_notifies destroy_disconns bt_att_free
    forget
exchange_log = refl

abbrev everything : ℕ → ℕ → Bool
everything destroy user_data = true

destroyed_once_example :
    let log = (bt_att_unref (run exchange (bt_att_new below true))).log in
    paid everything log ≡ granted everything log
unfolding run step perform bt_att_send create_att_send_op get_op_type encode_pdu wakeup_writer
    enqueue bt_att_new on_writable can_write_data pick_next_send_op can_read_data bt_att_ref
    bt_att_unref receive handle_rsp match_rsp finish_req respond perform_all drop_pending_req
    get_req_opcode written destroy_att_send_op
destroyed_once_example = destroyed_once everything below true exchange refl

run_kinds_example :
    let att = run exchange (bt_att_new below true) in
    (paid everything att.log + owed everything att ≡ granted everything att.log)
    × (All IsRequestOp att.req_queue × Held IsRequestOp att.pending_req)
    × (All IsIndicationOp att.ind_queue × Held IsIndicationOp att.pending_ind)
    × All IsWriteOp att.write_queue
run_kinds_example = run_kinds everything below true exchange

-- two requests and a command wait
abbrev waiting : List Input
waiting =
    called (sends read_request) ∷ called (sends read_request) ∷ called (sends write_command) ∷ []

no_lost_wakeup_example : (run waiting (bt_att_new below true)).writer_active ≡ true
unfolding run step perform bt_att_send create_att_send_op get_op_type encode_pdu wakeup_writer
    enqueue bt_att_new
no_lost_wakeup_example = no_lost_wakeup below true waiting refl refl refl

drained_example :
    let att = run waiting (bt_att_new below true) in
    let last = pump 3 (λ _. none) att in
    (last.writer_active ≡ false)
    × (can_send last ≡ false)
    × (sent last.log ≡ sent att.log ++ outgoing att)
unfolding run step perform bt_att_send create_att_send_op get_op_type encode_pdu wakeup_writer
    enqueue bt_att_new
drained_example = drained below true waiting 3 (λ _. none) refl (omega arith)

-- a bearer that takes any signature to be made
abbrev signing : Att
signing = record (bt_att_new below false) {
  crypto = λ _ _ _. some (1 ∷ 2 ∷ 3 ∷ 4 ∷ 5 ∷ 6 ∷ 7 ∷ 8 ∷ 9 ∷ 10 ∷ 11 ∷ 12 ∷ []);
  remote_sign = some (record { key = []; counter = λ n. some n });
  local_sign = some (record { key = []; counter = λ n. some n });
}

handle_signed_forged_example :
    handle_signed (3 ∷ 0 ∷ 7 ∷ 1 ∷ 0 ∷ 0 ∷ 0 ∷ 5 ∷ 6 ∷ 7 ∷ 8 ∷ 9 ∷ 10 ∷ 11 ∷ 12 ∷ []) signing
    ≡ handle_signed (3 ∷ 0 ∷ 7 ∷ 1 ∷ 0 ∷ 0 ∷ 0 ∷ 0 ∷ 0 ∷ 0 ∷ 0 ∷ 0 ∷ 0 ∷ 0 ∷ 0 ∷ []) signing
handle_signed_forged_example =
    handle_signed_forged (3 ∷ 0 ∷ 7 ∷ []) 1 0 0 0 (5 ∷ 6 ∷ 7 ∷ 8 ∷ 9 ∷ 10 ∷ 11 ∷ 12 ∷ [])
      (0 ∷ 0 ∷ 0 ∷ 0 ∷ 0 ∷ 0 ∷ 0 ∷ 0 ∷ []) signing (omega arith) refl refl

let_through :
    handle_signed (3 ∷ 0 ∷ 7 ∷ 1 ∷ 0 ∷ 0 ∷ 0 ∷ 0 ∷ 0 ∷ 0 ∷ 0 ∷ 0 ∷ 0 ∷ 0 ∷ 0 ∷ []) signing ≡ true
unfolding handle_signed
let_through = refl

signature_length :
    (key message : List ℕ) (cnt : ℕ) (signature : List ℕ)
    → signing.crypto key message cnt ≡ some signature
    → length signature ≡ 12
signature_length key message cnt signature e = ground arith

encode_pdu_bounds_example :
    Encodes signing 0xD2 (3 ∷ 0 ∷ 7 ∷ []) (encode_pdu signing 0xD2 (3 ∷ 0 ∷ 7 ∷ []) memory)
encode_pdu_bounds_example = encode_pdu_bounds signing 0xD2 (3 ∷ 0 ∷ 7 ∷ []) memory signature_length

request-response_example :
    (is_request (get_op_type 0x0a) ≡ true
      → (is_response (get_op_type (0x0a + 1)) ≡ true) × (get_req_opcode (0x0a + 1) ≡ 0x0a))
    × (get_req_opcode 0x0a ≢ 0
        → (is_request (get_op_type (get_req_opcode 0x0a)) ≡ true)
          × (get_req_opcode 0x0a + 1 ≡ 0x0a)
          × (is_response (get_op_type 0x0a) ≡ true))
    × (is_response (get_op_type 0x0a) ≡ true → 0x0a ≢ error_rsp → get_req_opcode 0x0a ≢ 0)
    × (is_response (get_op_type error_rsp) ≡ true)
request-response_example = request-response 0x0a (omega arith)

-- two handlers for notifications and one for anything that is asked
abbrev handler : (id opcode : ℕ) → Notify
handler id opcode = record { id = id; opcode = opcode; callback = 5; destroy = 0; user_data = id }

abbrev listening : Att
listening = record (bt_att_new below true) {
  notify_list = handler 1 0x1B ∷ handler 2 0 ∷ handler 3 0x1B ∷ [];
}

notify_loop-heard_example : notify_loop 4 (some 1) 0x1B (8 ∷ []) [] false listening ≡ (
  any_match 0x1B listening.notify_list,
  record listening { log = heard 0x1B (8 ∷ []) listening.notify_list listening.log },
)
notify_loop-heard_example = notify_loop-heard 0x1B (8 ∷ []) listening 4 (omega arith) (omega arith)
