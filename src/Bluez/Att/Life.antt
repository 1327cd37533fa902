-- ===== src/Bluez/Att/Life.antt =====
-- lib/bluez/att.c: the beginning and the end of a bearer, its settings, and the calls of it that a
-- callback may make.
use minipro.Base.{
  ℕ, ◌+◌, ◌-◌, ◌%◌, ◌^◌, Bool, true, false, not, ◌||◌, Option, none, some, List, [], ◌∷◌, ◌==◌, ltb,
  if◌then◌else◌,
}
use minipro.Bluez.Att.{
  SendOp, Event, accepted, Att, SignInfo, logged, call_destroy, destroy_att_send_op, Send,
}
use minipro.Bluez.Att.Calls.{
  bt_att_send, bt_att_cancel, bt_att_cancel_all, bt_att_register, bt_att_unregister,
  bt_att_register_disconnect, bt_att_unregister_disconnect, bt_att_unregister_all,
}

-- BT_ATT_DEFAULT_LE_MTU
abbrev pub default_mtu : ℕ
default_mtu = 23

-- what `bt_att_new` finds below: the io watches its file, the socket is L2CAP, the level of security
-- that it reports, whether that can be changed, and the signing of the kernel
pub record Below : Type 0 where
  pub watchable : Bool
  pub l2cap : Bool
  pub level : Option ℕ
  pub sets : Bool
  pub crypto : List ℕ → List ℕ → ℕ → Option (List ℕ)

-- `bt_att_new` on an open file, when nothing fails; without `ext_signed` there is a crypto context.
unfoldable pub bt_att_new : Below → (ext_signed : Bool) → Att
bt_att_new below ext_signed = record {
  alive = true;
  ref_count = 1;
  io = true;
  watchable = below.watchable;
  io_on_l2cap = below.l2cap;
  io_sec_level = (if below.l2cap then 0 else 1);
  socket_level = below.level;
  socket_sets = below.sets;
  req_queue = [];
  pending_req = none;
  ind_queue = [];
  pending_ind = none;
  write_queue = [];
  writer_active = false;
  notify_list = [];
  disconn_list = [];
  in_req = false;
  mtu = default_mtu;
  next_send_id = 0;
  next_reg_id = 0;
  timeout_callback = 0;
  timeout_destroy = 0;
  timeout_data = 0;
  crypto = (if ext_signed then (λ _ _ _. none) else below.crypto);
  ext_signed = ext_signed;
  local_sign = none;
  remote_sign = none;
  log = [];
}

-- `if (pending) destroy_att_send_op(pending)`
abbrev pub destroy_pending : Option SendOp → List Event → List Event
destroy_pending none log = log
destroy_pending (some op) log = destroy_att_send_op op log

-- `bt_att_free`, with `io_destroy`, which ends the watching
unfoldable pub bt_att_free : Att → Att
bt_att_free att = record att {
  alive = false;
  io = false;
  writer_active = false;
  pending_req = none;
  pending_ind = none;
  req_queue = [];
  ind_queue = [];
  write_queue = [];
  notify_list = [];
  disconn_list = [];
  timeout_destroy = 0;
  log =
      call_destroy att.timeout_destroy att.timeout_data
        (destroy_pending att.pending_ind (destroy_pending att.pending_req att.log));
}

unfoldable pub bt_att_ref : Att → Att
bt_att_ref att = record att { ref_count = (att.ref_count + 1) % 2 ^ 32 }

unfoldable pub bt_att_unref : Att → Att
unfolding bt_att_free
bt_att_unref att =
    let refs = (att.ref_count + (2 ^ 32 - 1)) % 2 ^ 32 in
    let att' = record att { ref_count = refs } in
    if refs == 0 then bt_att_free (bt_att_cancel_all (bt_att_unregister_all att')) else att'

unfoldable pub bt_att_set_timeout_cb : (callback user_data destroy : ℕ) → Att → Att
bt_att_set_timeout_cb callback user_data destroy att = record att {
  timeout_callback = callback;
  timeout_destroy = destroy;
  timeout_data = user_data;
  log = call_destroy att.timeout_destroy att.timeout_data att.log;
}

-- `bt_att_set_mtu`, with the memory for the buffer
unfoldable pub bt_att_set_mtu : ℕ → (mem : Bool) → Att → Bool × Att
bt_att_set_mtu mtu mem att =
    if ltb mtu default_mtu || not mem then (false, att) else (true, record att { mtu = mtu })

-- `bt_att_get_security`; none is -EIO.
unfoldable pub bt_att_get_security : Att → Option ℕ
bt_att_get_security att = if att.io_on_l2cap then att.socket_level else some att.io_sec_level

-- `bt_att_set_security` to a level that is not negative; BT_ATT_SECURITY_HIGH is 3.
unfoldable pub bt_att_set_security : ℕ → Att → Bool × Att
bt_att_set_security level att =
    if ltb 3 level
    then (false, att)
    else if not att.io_on_l2cap
    then (true, record att { io_sec_level = level })
    else if att.socket_sets
    then (true, record att { socket_level = some level })
    else (false, att)

-- `bt_att_set_local_key` and `bt_att_set_remote_key`, when there is memory
unfoldable pub bt_att_set_local_key : SignInfo → Att → Att
bt_att_set_local_key sign att = record att { local_sign = some sign }

unfoldable pub bt_att_set_remote_key : SignInfo → Att → Att
bt_att_set_remote_key sign att = record att { remote_sign = some sign }

-- the calls of att.c that users and their callbacks make
pub data Call : Type 0 where
  sends : Send → Call
  cancels : ℕ → Call
  cancels_all unregisters_all refs unrefs : Call
  registers : (opcode callback user_data destroy : ℕ) (mem entry_mem : Bool) → Call
  unregisters : ℕ → Call
  registers_disconnect : (callback user_data destroy : ℕ) (mem entry_mem : Bool) → Call
  unregisters_disconnect : ℕ → Call
  sets_timeout_cb : (callback user_data destroy : ℕ) → Call
  sets_mtu : ℕ → (mem : Bool) → Call
  sets_security : ℕ → Call
  sets_local_key sets_remote_key : SignInfo → Call

-- a call with what it returned, 0 if it has failed and so took over nothing
abbrev pub granted_if : (destroy user_data : ℕ) → ℕ × Att → Att
granted_if destroy user_data (id, att) =
    if id == 0 then att else logged (accepted destroy user_data) att

unfoldable pub perform : Call → Att → Att
perform (sends s) att = granted_if s.destroy s.user_data (bt_att_send s att)
perform (cancels id) att = (bt_att_cancel id att).1
perform cancels_all att = bt_att_cancel_all att
perform unregisters_all att = bt_att_unregister_all att
perform refs att = bt_att_ref att
perform unrefs att = bt_att_unref att
perform (registers opcode callback user_data destroy mem entry_mem) att =
    granted_if destroy user_data
      (bt_att_register opcode callback user_data destroy mem entry_mem att)
perform (unregisters id) att = (bt_att_unregister id att).1
perform (registers_disconnect callback user_data destroy mem entry_mem) att =
    granted_if destroy user_data
      (bt_att_register_disconnect callback user_data destroy mem entry_mem att)
perform (unregisters_disconnect id) att = (bt_att_unregister_disconnect id att).1
perform (sets_timeout_cb callback user_data destroy) att =
    logged (accepted destroy user_data) (bt_att_set_timeout_cb callback user_data destroy att)
perform (sets_mtu mtu mem) att = (bt_att_set_mtu mtu mem att).1
perform (sets_security level) att = (bt_att_set_security level att).1
perform (sets_local_key sign) att = bt_att_set_local_key sign att
perform (sets_remote_key sign) att = bt_att_set_remote_key sign att

unfoldable pub perform_all : List Call → Att → Att
perform_all [] att = att
perform_all (c ∷ cs) att = perform_all cs (perform c att)
