-- ===== src/Bluez/Att/Awake.antt =====
-- No wake-up is lost: a bearer that has something to send waits for its file to become writable.
use minipro.Base.{
  ℕ, ◌+◌, ◌-◌, ◌%◌, ◌^◌, ◌≡◌, refl, ◌∙◌, Bool, true, false, not, ◌&&◌, ◌||◌, Option, none, some,
  List, [], ◌∷◌, arith, ◌==◌, if_lem,
}
use minipro.Bluez.Att.{
  SendOp, Notify, Disconn, Event, shut, Att, call_destroy, destroy_att_send_op, Send, Made, refused,
  overrun, made,
}
use minipro.Bluez.Att.Calls.{
  can_send, wakeup_writer, send_made, bt_att_send, cancel_found, cancel_queued, cancel_pending_req,
  cancel_pending_ind, bt_att_cancel, bt_att_cancel_all, destroy_ops, destroy_notifies,
  destroy_disconns, bt_att_register, bt_att_unregister, bt_att_register_disconnect,
  bt_att_unregister_disconnect, bt_att_unregister_all, has_id,
}
use minipro.Bluez.Att.Life.{
  granted_if, bt_att_ref, bt_att_unref, bt_att_set_timeout_cb, bt_att_set_mtu, bt_att_set_security,
  bt_att_set_local_key, bt_att_set_remote_key, Call, sends, cancels, cancels_all, unregisters_all,
  refs, unrefs, registers, unregisters, registers_disconnect, unregisters_disconnect,
  sets_timeout_cb, sets_mtu, sets_security, sets_local_key, sets_remote_key, perform, perform_all,
}

-- whether the link was shut down
abbrev pub was_shut : List Event → Bool
was_shut [] = false
was_shut (shut ∷ log) = true
was_shut (_ ∷ log) = was_shut log

-- The writer is active, or there is nothing that may be sent, or writing is impossible.
abbrev pub awake : Att → Bool
awake att =
    ((att.writer_active || not (can_send att)) || not (att.io && att.watchable)) || was_shut att.log

abbrev pub IsAwake : Att → Type 0
IsAwake att = awake att ≡ true

pub was_shut-call_destroy :
    (destroy user_data : ℕ) (log : List Event)
    → was_shut (call_destroy destroy user_data log) ≡ was_shut log
was_shut-call_destroy destroy user_data log = ground arith

pub was_shut-destroy_op :
    (op : SendOp) (log : List Event) → was_shut (destroy_att_send_op op log) ≡ was_shut log
unfolding destroy_att_send_op
was_shut-destroy_op op log = ground arith

was_shut-destroy_ops :
    (ops : List SendOp) (log : List Event) → was_shut (destroy_ops ops log) ≡ was_shut log
unfolding destroy_ops
was_shut-destroy_ops [] log = refl
was_shut-destroy_ops (op ∷ ops) log =
    was_shut-destroy_ops ops (destroy_att_send_op op log) ∙ was_shut-destroy_op op log

was_shut-destroy_notifies :
    (ns : List Notify) (log : List Event) → was_shut (destroy_notifies ns log) ≡ was_shut log
unfolding destroy_notifies
was_shut-destroy_notifies [] log = refl
was_shut-destroy_notifies (n ∷ ns) log =
    was_shut-destroy_notifies ns (call_destroy n.destroy n.user_data log)
    ∙ was_shut-call_destroy n.destroy n.user_data log

was_shut-destroy_disconns :
    (ds : List Disconn) (log : List Event) → was_shut (destroy_disconns ds log) ≡ was_shut log
unfolding destroy_disconns
was_shut-destroy_disconns [] log = refl
was_shut-destroy_disconns (d ∷ ds) log =
    was_shut-destroy_disconns ds (call_destroy d.destroy d.user_data log)
    ∙ was_shut-call_destroy d.destroy d.user_data log

pub wakeup_writer-IsAwake : (att : Att) → IsAwake (wakeup_writer att)
unfolding wakeup_writer
wakeup_writer-IsAwake att = ground arith

send_made-IsAwake :
    (m : Made SendOp) (entry_mem : Bool) (att : Att)
    → IsAwake att
    → IsAwake (send_made m entry_mem att).1
unfolding send_made
send_made-IsAwake refused entry_mem att h = h
send_made-IsAwake overrun entry_mem att h = h
send_made-IsAwake (made op) true att h = wakeup_writer-IsAwake _
send_made-IsAwake (made op) false att h = h

pub granted_if-IsAwake :
    (destroy user_data : ℕ) (r : ℕ × Att) → IsAwake r.1 → IsAwake (granted_if destroy user_data r)
granted_if-IsAwake destroy user_data (id, att) h = if_lem IsAwake (id == 0) (λ _. h) (λ _. h)

pub bt_att_send-IsAwake : (s : Send) (att : Att) → IsAwake att → IsAwake (bt_att_send s att).1
unfolding bt_att_send
bt_att_send-IsAwake s att h =
    if_lem (λ (r : ℕ × Att). IsAwake r.1) (not att.io) (λ _. h)
      (λ _. send_made-IsAwake _ s.mem.entry_mem att h)

pending_req-IsAwake : (att : Att) → IsAwake att → IsAwake (cancel_pending_req att)
unfolding cancel_pending_req
pending_req-IsAwake att h = ground arith

pending_ind-IsAwake : (att : Att) → IsAwake att → IsAwake (cancel_pending_ind att)
unfolding cancel_pending_ind
pending_ind-IsAwake att h = ground arith

cancel_found-IsAwake :
    (req ind write : Option (SendOp × List SendOp)) (att : Att)
    → IsAwake att
    → IsAwake (cancel_found req ind write att).1
unfolding cancel_found
cancel_found-IsAwake (some (op, rest)) ind write att h = wakeup_writer-IsAwake _
cancel_found-IsAwake none (some (op, rest)) write att h = wakeup_writer-IsAwake _
cancel_found-IsAwake none none (some (op, rest)) att h = wakeup_writer-IsAwake _
cancel_found-IsAwake none none none att h = h

bt_att_cancel-IsAwake : (id : ℕ) (att : Att) → IsAwake att → IsAwake (bt_att_cancel id att).1
unfolding bt_att_cancel cancel_queued
bt_att_cancel-IsAwake id att h =
    let P = λ (r : Bool × Att). IsAwake r.1 in
    if_lem P (id == 0) (λ _. h)
      λ _.
        if_lem P (has_id id att.pending_req) (λ _. pending_req-IsAwake att h)
          λ _.
            if_lem P (has_id id att.pending_ind) (λ _. pending_ind-IsAwake att h)
              (λ _. cancel_found-IsAwake _ _ _ att h)

-- With nothing queued there is nothing to send.
pub cancel_all-IsAwake : (att : Att) → IsAwake (bt_att_cancel_all att)
unfolding bt_att_cancel_all
cancel_all-IsAwake att =
    let idle = record att {
      req_queue = [];
      ind_queue = [];
      write_queue = [];
      log =
          destroy_ops att.write_queue
            (destroy_ops att.ind_queue (destroy_ops att.req_queue att.log));
    } in
    pending_ind-IsAwake (cancel_pending_req idle) (pending_req-IsAwake idle (ground arith))

pub unregister_all-IsAwake : (att : Att) → IsAwake att → IsAwake (bt_att_unregister_all att)
unfolding bt_att_unregister_all
unregister_all-IsAwake att h = ground (
  arith,
  was_shut-destroy_notifies att.notify_list att.log,
  was_shut-destroy_disconns att.disconn_list (destroy_notifies att.notify_list att.log),
)

pub bt_att_unref-IsAwake : (att : Att) → IsAwake att → IsAwake (bt_att_unref att)
unfolding bt_att_unref
bt_att_unref-IsAwake att h =
    if_lem IsAwake ((att.ref_count + (2 ^ 32 - 1)) % 2 ^ 32 == 0) (λ _. ground arith) (λ _. h)

register-IsAwake :
    (opcode callback user_data destroy : ℕ) (mem entry_mem : Bool) (att : Att)
    → IsAwake att
    → IsAwake (bt_att_register opcode callback user_data destroy mem entry_mem att).1
unfolding bt_att_register
register-IsAwake opcode callback user_data destroy mem entry_mem att h = ground arith

register_disconnect-IsAwake :
    (callback user_data destroy : ℕ) (mem entry_mem : Bool) (att : Att)
    → IsAwake att
    → IsAwake (bt_att_register_disconnect callback user_data destroy mem entry_mem att).1
unfolding bt_att_register_disconnect
register_disconnect-IsAwake callback user_data destroy mem entry_mem att h = ground arith

unregister-IsAwake : (id : ℕ) (att : Att) → IsAwake att → IsAwake (bt_att_unregister id att).1
unfolding bt_att_unregister
unregister-IsAwake id att h = ground arith

unregister_disconnect-IsAwake :
    (id : ℕ) (att : Att) → IsAwake att → IsAwake (bt_att_unregister_disconnect id att).1
unfolding bt_att_unregister_disconnect
unregister_disconnect-IsAwake id att h = ground arith

set_timeout_cb-IsAwake :
    (callback user_data destroy : ℕ) (att : Att)
    → IsAwake att
    → IsAwake (bt_att_set_timeout_cb callback user_data destroy att)
unfolding bt_att_set_timeout_cb
set_timeout_cb-IsAwake callback user_data destroy att h = ground arith

pub set_security-IsAwake :
    (level : ℕ) (att : Att) → IsAwake att → IsAwake (bt_att_set_security level att).1
unfolding bt_att_set_security
set_security-IsAwake level att h = ground arith

pub perform-IsAwake : (c : Call) (att : Att) → IsAwake att → IsAwake (perform c att)
unfolding perform bt_att_ref bt_att_set_mtu bt_att_set_local_key bt_att_set_remote_key
perform-IsAwake (sends s) att h =
    granted_if-IsAwake s.destroy s.user_data (bt_att_send s att) (bt_att_send-IsAwake s att h)
perform-IsAwake (cancels id) att h = bt_att_cancel-IsAwake id att h
perform-IsAwake cancels_all att h = cancel_all-IsAwake att
perform-IsAwake unregisters_all att h = unregister_all-IsAwake att h
perform-IsAwake refs att h = h
perform-IsAwake unrefs att h = bt_att_unref-IsAwake att h
perform-IsAwake (registers o c u d m e) att h =
    granted_if-IsAwake d u (bt_att_register o c u d m e att) (register-IsAwake o c u d m e att h)
perform-IsAwake (unregisters id) att h = unregister-IsAwake id att h
perform-IsAwake (registers_disconnect c u d m e) att h =
    granted_if-IsAwake d u (bt_att_register_disconnect c u d m e att)
      (register_disconnect-IsAwake c u d m e att h)
perform-IsAwake (unregisters_disconnect id) att h = unregister_disconnect-IsAwake id att h
perform-IsAwake (sets_timeout_cb c u d) att h = set_timeout_cb-IsAwake c u d att h
perform-IsAwake (sets_mtu mtu mem) att h = ground arith
perform-IsAwake (sets_security level) att h = set_security-IsAwake level att h
perform-IsAwake (sets_local_key sign) att h = h
perform-IsAwake (sets_remote_key sign) att h = h

pub perform_all-IsAwake : (cs : List Call) (att : Att) → IsAwake att → IsAwake (perform_all cs att)
unfolding perform_all
perform_all-IsAwake [] att h = h
perform_all-IsAwake (c ∷ cs) att h =
    perform_all-IsAwake cs (perform c att) (perform-IsAwake c att h)
