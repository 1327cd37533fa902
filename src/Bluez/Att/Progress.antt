-- ===== src/Bluez/Att/Progress.antt =====
-- The writer, responses, confirmations and timeouts lose no wake-up.
use minipro.Base.{
  ℕ, ◌≡◌, ◌∙◌, Bool, true, false, not, ◌&&◌, Option, none, some, List, [], arith, ◌==◌,
  if◌then◌else◌, if_lem, option_lem, length,
}
use minipro.Bluez.Att.{
  SendOp, Notify, responded, notified, wrote, Att, logged, destroy_att_send_op, io_shutdown,
}
use minipro.Bluez.Att.Opcodes.{get_req_opcode, error_rsp}
use minipro.Bluez.Att.Calls.{can_send, has_id}
use minipro.Bluez.Att.Life.{Call}
use minipro.Bluez.Att.Writer.{
  pick_next_send_op, respond, written, can_write_data, on_writable, handle_error_rsp, finish_req,
  match_rsp, handle_rsp, handle_conf, expire, timeout_cb,
}
use minipro.Bluez.Att.Reader.{tell}
use minipro.Bluez.Att.Awake.{
  IsAwake, was_shut-destroy_op, wakeup_writer-IsAwake, perform_all-IsAwake,
}

pub io_shutdown-IsAwake : (att : Att) → IsAwake (io_shutdown att)
unfolding io_shutdown
io_shutdown-IsAwake att = ground arith

pub tell-IsAwake :
    (opcode : ℕ) (pdu : List ℕ) (x : Notify) (react : List Call) (att : Att)
    → IsAwake att
    → IsAwake (tell opcode pdu x react att)
unfolding tell
tell-IsAwake opcode pdu x react att h =
    if_lem IsAwake (x.callback == 0) (λ _. h)
      (λ _. perform_all-IsAwake react (logged (notified x.callback opcode pdu x.user_data) att) h)

respond-IsAwake :
    (opcode : ℕ) (pdu : List ℕ) (op : SendOp) (react : List Call) (att : Att)
    → IsAwake att
    → IsAwake (respond opcode pdu op react att)
unfolding respond
respond-IsAwake opcode pdu op react att h =
    if_lem IsAwake (op.callback == 0) (λ _. h)
      (λ _.
        perform_all-IsAwake react (logged (responded op.callback opcode pdu op.user_data) att) h)

destroyed-IsAwake :
    (op : SendOp) (att : Att)
    → IsAwake att
    → IsAwake (record att { log = destroy_att_send_op op att.log })
destroyed-IsAwake op att h = rw (was_shut-destroy_op op att.log) h

-- With an active writer all is well.
written_active :
    (op : SendOp) (timer : Option ℕ) (att : Att)
    → att.writer_active ≡ true
    → (written op timer att).writer_active ≡ true
unfolding written
written_active op timer att e = ground arith

pick_active :
    (att : Att) (op : SendOp) (att' : Att)
    → pick_next_send_op att ≡ some (op, att')
    → att'.writer_active ≡ att.writer_active
unfolding pick_next_send_op
pick_active att op att' e = ground arith

pick_none : (att : Att) → pick_next_send_op att ≡ none → can_send att ≡ false
unfolding pick_next_send_op
pick_none att e = ground arith

active-IsAwake : (att : Att) → att.writer_active ≡ true → IsAwake att
active-IsAwake att e = ground arith

-- While its handler is set, the writer goes on until there is nothing to send.
pub on_writable-IsAwake :
    (sent : Bool) (timer : Option ℕ) (react : List Call) (att : Att)
    → IsAwake att
    → IsAwake (on_writable sent timer react att)
unfolding on_writable can_write_data
on_writable-IsAwake sent timer react att h =
    if_lem IsAwake (not att.writer_active) (λ _. h)
      λ on.
        option_lem
          (λ (r : Bool × Att).
            IsAwake (if r.0 then r.1 else record (r.1) { writer_active = false }))
          (pick_next_send_op att) (λ e. let quiet = pick_none att e in ground arith)
          (λ (op, att') e.
            let on' : att'.writer_active ≡ true = pick_active att op att' e ∙ ground arith in
            if_lem
              (λ (r : Bool × Att).
                IsAwake (if r.0 then r.1 else record (r.1) { writer_active = false }))
              sent
              (λ _.
                active-IsAwake (written op timer (logged (wrote op.pdu) att'))
                  (written_active op timer (logged (wrote op.pdu) att') on'))
              (λ _.
                destroyed-IsAwake op (respond error_rsp [] op react att')
                  (respond-IsAwake error_rsp [] op react att' (active-IsAwake att' on'))))

finish_req-IsAwake :
    (rsp_opcode : ℕ) (rsp_pdu : List ℕ) (op : SendOp) (react : List Call) (att : Att)
    → IsAwake (finish_req rsp_opcode rsp_pdu op react att)
unfolding finish_req
finish_req-IsAwake rsp_opcode rsp_pdu op react att = wakeup_writer-IsAwake _

match_rsp-IsAwake :
    (req_opcode opcode : ℕ) (pdu : List ℕ) (op : SendOp) (react : List Call) (att : Att)
    → IsAwake (match_rsp req_opcode opcode pdu op react att)
unfolding match_rsp
match_rsp-IsAwake req_opcode opcode pdu op react att =
    let fail = finish_req-IsAwake error_rsp [] op react att in
    if_lem IsAwake (req_opcode == 0 && not (opcode == error_rsp)) (λ _. fail)
      λ _.
        if_lem IsAwake (req_opcode == op.opcode) (λ _. finish_req-IsAwake opcode pdu op react att)
          (λ _. fail)

pub handle_rsp-IsAwake :
    (opcode : ℕ) (pdu : List ℕ) (react : List Call) (att : Att)
    → IsAwake (handle_rsp opcode pdu react att)
unfolding handle_rsp
handle_rsp-IsAwake opcode pdu react att =
    option_lem IsAwake att.pending_req (λ _. io_shutdown-IsAwake att)
      λ op e.
        if_lem IsAwake (not (opcode == error_rsp))
          (λ _. match_rsp-IsAwake (get_req_opcode opcode) opcode pdu op react att)
          (λ _.
            if_lem IsAwake (handle_error_rsp pdu op att).0 (λ _. wakeup_writer-IsAwake _)
              (λ _.
                match_rsp-IsAwake (handle_error_rsp pdu op att).1 opcode pdu op react
                  (handle_error_rsp pdu op att).2))

pub handle_conf-IsAwake :
    (pdu : List ℕ) (react : List Call) (att : Att) → IsAwake (handle_conf pdu react att)
unfolding handle_conf
handle_conf-IsAwake pdu react att =
    option_lem IsAwake att.pending_ind (λ _. io_shutdown-IsAwake att)
      λ op e.
        if_lem IsAwake (length pdu == 0) (λ _. wakeup_writer-IsAwake _)
          (λ _. io_shutdown-IsAwake att)

pub timeout_cb-IsAwake :
    (id : ℕ) (react : List Call) (att : Att) → IsAwake att → IsAwake (timeout_cb id react att)
unfolding timeout_cb expire
timeout_cb-IsAwake id react att h =
    if_lem IsAwake (has_id id att.pending_req)
      (λ _. option_lem IsAwake att.pending_req (λ _. h) (λ op e. io_shutdown-IsAwake _))
      (λ _.
        if_lem IsAwake (has_id id att.pending_ind)
          (λ _. option_lem IsAwake att.pending_ind (λ _. h) (λ op e. io_shutdown-IsAwake _))
          (λ _. h))
