-- ===== src/Bluez/Att.antt =====
-- lib/bluez/att.c: the state of an ATT bearer and the calls that its users make. Queues are the lists
-- of their values, as in GattDb. A callback, its destructor and its data are pointers, 0 for NULL;
-- `log` lists what was called and written, the latest first. Debug output is left out.
pub mod Opcodes
pub mod Calls
pub mod Life
pub mod Writer
pub mod Reader
pub mod Holds
pub mod Balance
pub mod Sending
pub mod Conserved
pub mod Answered
pub mod Run
pub mod Awake
pub mod Progress
pub mod Wakeups
pub mod Drain
pub mod Signed
pub mod Tables
pub mod Heard
mod Tests
use minipro.Base.{
  ℕ, zero, suc, ◌+◌, ◌-◌, ◌%◌, ◌^◌, Bool, true, false, not, ◌&&◌, ◌||◌, Option, none, some, List,
  [], ◌∷◌, ◌++◌, ◌==◌, ltb, leb, if◌then◌else◌, length, take, is_some,
}
use Opcodes.{OpType, is_request, is_indication, is_unknown, get_op_type, is_signed}

-- `struct att_send_op`; `len` is the length of `pdu`.
pub record SendOp : Type 0 where
  pub id : ℕ
  pub timeout_id : ℕ
  pub op_type : OpType
  pub opcode : ℕ
  pub pdu : List ℕ
  pub callback : ℕ
  pub destroy : ℕ
  pub user_data : ℕ

-- `struct att_notify`
pub record Notify : Type 0 where
  pub id : ℕ
  pub opcode : ℕ
  pub callback : ℕ
  pub destroy : ℕ
  pub user_data : ℕ

-- `struct att_disconn`, whose `removed` nothing sets
pub record Disconn : Type 0 where
  pub id : ℕ
  pub callback : ℕ
  pub destroy : ℕ
  pub user_data : ℕ

-- `struct sign_info`; the counter gets the value that it may change, and may fail.
pub record SignInfo : Type 0 where
  pub key : List ℕ
  pub counter : ℕ → Option ℕ

-- What the bearer does that others see: calls of the callbacks and destructors that it was given, and
-- of the layer below. `accepted` says that a call which hands over a destructor has succeeded; `overran`
-- is a write beyond the memory of a PDU, `dangling` a read of a handler that has been freed.
pub data Event : Type 0 where
  responded : (callback opcode : ℕ) → List ℕ → (user_data : ℕ) → Event
  notified : (callback opcode : ℕ) → List ℕ → (user_data : ℕ) → Event
  timed_out : (callback id opcode user_data : ℕ) → Event
  disconnected : (callback err user_data : ℕ) → Event
  destroyed : (destroy user_data : ℕ) → Event
  accepted : (destroy user_data : ℕ) → Event
  timer_removed : ℕ → Event
  wrote : List ℕ → Event
  shut overran dangling : Event

-- `struct bt_att`. `io` says that there is an io, `watchable` that the main loop lets it wait for
-- writing. `socket_level` is the security that an L2CAP socket reports, none if it does not,
-- and `socket_sets` whether it can be changed. `crypto` is bt_crypto_sign_att with the context.
pub record Att : Type 0 where
  pub alive : Bool
  pub ref_count : ℕ
  pub io : Bool
  pub watchable : Bool
  pub io_on_l2cap : Bool
  pub io_sec_level : ℕ
  pub socket_level : Option ℕ
  pub socket_sets : Bool
  pub req_queue : List SendOp
  pub pending_req : Option SendOp
  pub ind_queue : List SendOp
  pub pending_ind : Option SendOp
  pub write_queue : List SendOp
  pub writer_active : Bool
  pub notify_list : List Notify
  pub disconn_list : List Disconn
  pub in_req : Bool
  pub mtu : ℕ
  pub next_send_id : ℕ
  pub next_reg_id : ℕ
  pub timeout_callback : ℕ
  pub timeout_destroy : ℕ
  pub timeout_data : ℕ
  pub crypto : List ℕ → List ℕ → ℕ → Option (List ℕ)
  pub ext_signed : Bool
  pub local_sign : Option SignInfo
  pub remote_sign : Option SignInfo
  pub log : List Event

-- `if (destroy) destroy(user_data)`
abbrev pub call_destroy : (destroy user_data : ℕ) → List Event → List Event
call_destroy destroy user_data log = if destroy == 0 then log else destroyed destroy user_data ∷ log

abbrev pub logged : Event → Att → Att
logged e att = record att { log = e ∷ att.log }

-- `destroy_att_send_op`
unfoldable pub destroy_att_send_op : SendOp → List Event → List Event
destroy_att_send_op op log =
    call_destroy op.destroy op.user_data
      (if op.timeout_id == 0 then log else timer_removed op.timeout_id ∷ log)

-- `cancel_att_send_op`: what is left of the operation, and the call
unfoldable pub forget : SendOp → SendOp
forget op = record op { user_data = 0; callback = 0; destroy = 0 }

-- `io_shutdown(att->io)`
unfoldable pub io_shutdown : Att → Att
io_shutdown att = if att.io then logged shut att else att

-- what the allocator gives `bt_att_send` (for the operation, its PDU and its entry in the queue), and
-- what its counter for signatures holds before it is set
pub record Memory : Type 0 where
  pub op_mem : Bool
  pub pdu_mem : Bool
  pub entry_mem : Bool
  pub sign_cnt : ℕ

-- the outcome of what builds an operation; `overrun` is memory written past its end.
pub data Made (A : Type 0) : Type 0 where
  refused overrun : Made A
  made : A → Made A

abbrev pub u16 : ℕ → ℕ
u16 v = v % 2 ^ 16

-- BT_ATT_SIGNATURE_LEN
abbrev pub signature_len : ℕ
signature_len = 12

-- `local_sign`, if the opcode asks for a signature
abbrev pub signer : Att → ℕ → Option SignInfo
signer att opcode = if is_signed opcode then att.local_sign else none

-- `encode_pdu`; `body` are the bytes at `pdu`, none if it is NULL.
unfoldable pub encode_pdu : Att → (opcode : ℕ) (body : List ℕ) → Memory → Made (List ℕ)
encode_pdu att opcode body mem = elim (signer att opcode) [
  | none ↦
      let pdu_len = u16 (1 + length body) in
      if ltb att.mtu pdu_len || not mem.pdu_mem
      then refused
      else if ltb pdu_len (1 + length body)
      then overrun
      else made (opcode ∷ body)
  | some sign ↦
      let pdu_len = u16 (1 + signature_len + length body) in
      if ltb att.mtu pdu_len || not mem.pdu_mem
      then refused
      else if ltb pdu_len (1 + signature_len + length body)
      then overrun
      else elim (sign.counter mem.sign_cnt) [
        | none ↦ refused
        | some cnt ↦ elim (att.crypto sign.key (opcode ∷ body) cnt) [
          | none ↦ refused
          | some signature ↦ made (opcode ∷ (body ++ signature))
        ]
      ]
]

-- the arguments of `bt_att_send`; `pdu` is none if it is NULL.
pub record Send : Type 0 where
  pub opcode : ℕ
  pub pdu : Option (List ℕ)
  pub len : ℕ
  pub callback : ℕ
  pub user_data : ℕ
  pub destroy : ℕ
  pub mem : Memory

-- the bytes that are sent behind the opcode
abbrev pub body_of : Option (List ℕ) → ℕ → List ℕ
body_of none len = []
body_of (some bytes) len = take len bytes

-- whether an operation of this type gets an answer
abbrev pub expects_answer : OpType → Bool
expects_answer t = is_request t || is_indication t

-- `create_att_send_op`, without the id, which is given later
unfoldable pub create_att_send_op : Att → Send → Made SendOp
create_att_send_op att s =
    let op_type = get_op_type s.opcode in
    let has_callback = not (s.callback == 0) in
    if not (s.len == 0) && not (is_some s.pdu)
    then refused
    else if is_unknown op_type
    then refused
    else if has_callback && not (expects_answer op_type)
    then refused
    else if not has_callback && expects_answer op_type
    then refused
    else if not s.mem.op_mem
    then refused
    else elim (encode_pdu att s.opcode (body_of s.pdu s.len) s.mem) [
      | refused ↦ refused
      | overrun ↦ overrun
      | made bytes ↦ made (record {
        id = 0;
        timeout_id = 0;
        op_type = op_type;
        opcode = s.opcode;
        pdu = bytes;
        callback = s.callback;
        destroy = s.destroy;
        user_data = s.user_data;
      })
    ]
