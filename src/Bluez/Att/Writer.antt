-- ===== src/Bluez/Att/Writer.antt =====
-- lib/bluez/att.c: the operation that is sent next, its answer, and its timeout. What a callback does to
-- the bearer in turn is `react`, the calls of att.c that it makes; destructors make none.
use minipro.Base.{
  ℕ, Bool, true, false, not, ◌&&◌, Option, none, some, List, [], ◌∷◌, ◌==◌, if◌then◌else◌, length,
}
use minipro.Bluez.Att.{
  SendOp, responded, timed_out, wrote, Att, logged, destroy_att_send_op, io_shutdown,
}
use minipro.Bluez.Att.Opcodes.{
  request, response, indication, get_req_opcode, error_rsp, handle_val_conf,
}
use minipro.Bluez.Att.Calls.{wakeup_writer, has_id}
use minipro.Bluez.Att.Life.{Call, perform_all, bt_att_get_security, bt_att_set_security}

-- `pick_next_send_op`: the operation, and the bearer without it
unfoldable pub pick_next_send_op : Att → Option (SendOp × Att)
pick_next_send_op att = elim att.write_queue [
  | op ∷ rest ↦ some (op, record att { write_queue = rest })
  | [] ↦
      let by_indication : Option (SendOp × Att) = elim att.pending_ind [
        | some _ ↦ none
        | none ↦ elim att.ind_queue [
          | [] ↦ none
          | op ∷ rest ↦ some (op, record att { ind_queue = rest })
        ]
      ] in
      elim att.pending_req [
        | some _ ↦ by_indication
        | none ↦ elim att.req_queue [
          | [] ↦ by_indication
          | op ∷ rest ↦ some (op, record att { req_queue = rest })
        ]
      ]
]

-- `if (op->callback) op->callback(opcode, pdu, len, op->user_data)`
unfoldable pub respond : (opcode : ℕ) (pdu : List ℕ) → SendOp → List Call → Att → Att
respond opcode pdu op react att =
    if op.callback == 0
    then att
    else perform_all react (logged (responded op.callback opcode pdu op.user_data) att)

-- the timer of an operation that was sent; `timer` is what `timeout_add` returned, none if there was no
-- memory to start it.
abbrev pub timed : Option ℕ → SendOp → SendOp
timed none op = op
timed (some id) op = record op { timeout_id = id }

-- the operation was written: what `can_write_data` keeps of it
unfoldable pub written : SendOp → (timer : Option ℕ) → Att → Att
written op timer att = elim op.op_type [
  | request ↦ record att { pending_req = some (timed timer op) }
  | indication ↦ record att { pending_ind = some (timed timer op) }
  | response ↦ record att { in_req = false; log = destroy_att_send_op op att.log }
  | _ ↦ record att { log = destroy_att_send_op op att.log }
]

-- `can_write_data`; `sent` says whether `io_send` succeeds.
unfoldable pub can_write_data : (sent : Bool) (timer : Option ℕ) → List Call → Att → Bool × Att
unfolding respond written
can_write_data sent timer react att = elim (pick_next_send_op att) [
  | none ↦ (false, att)
  | some (op, att') ↦
      if sent
      then (true, written op timer (logged (wrote op.pdu) att'))
      else let told = respond error_rsp [] op react att' in
        (true, record told { log = destroy_att_send_op op told.log })
]

-- The file can be written: `io_callback` of io-mainloop.c calls the write handler, if it is set, and
-- takes it away when it returns false, with `write_watch_destroy`.
unfoldable pub on_writable : (sent : Bool) (timer : Option ℕ) → List Call → Att → Att
on_writable sent timer react att =
    let (again, att') = can_write_data sent timer react att in
    if not att.writer_active
    then att
    else if again
    then att'
    else record att' { writer_active = false }

-- the request, or the indication, that is under way ends
unfoldable pub drop_pending_req : Att → Att
drop_pending_req att = elim att.pending_req [
  | none ↦ att
  | some op ↦ record att { pending_req = none; log = destroy_att_send_op op att.log }
]

unfoldable pub drop_pending_ind : Att → Att
drop_pending_ind att = elim att.pending_ind [
  | none ↦ att
  | some op ↦ record att { pending_ind = none; log = destroy_att_send_op op att.log }
]

-- `change_security`: BT_ATT_SECURITY_AUTO is 0, MEDIUM 2, HIGH 3.
unfoldable pub change_security : (ecode : ℕ) → Att → Bool × Att
change_security ecode att = elim (bt_att_get_security att) [
  | none ↦ (false, att)
  | some security ↦
      if not (security == 0)
      then (false, att)
      else if ecode == 0x0F
      then bt_att_set_security 2 att
      else if ecode == 0x05
      then bt_att_set_security 3 att
      else (false, att)
]

-- `handle_error_rsp`: whether the request is tried again (then there is memory for its entry), the
-- opcode that the error is about, and the bearer
unfoldable pub handle_error_rsp : List ℕ → SendOp → Att → Bool × ℕ × Att
handle_error_rsp (opcode ∷ lo ∷ hi ∷ ecode ∷ []) op att =
    let (changed, att') = change_security ecode att in
    if changed
    then (true, opcode, record att' { pending_req = none; req_queue = op ∷ att'.req_queue })
    else (false, opcode, att')
handle_error_rsp _ op att = (false, 0, att)

-- what `handle_rsp` does from its label `done` on
unfoldable pub finish_req : (rsp_opcode : ℕ) (rsp_pdu : List ℕ) → SendOp → List Call → Att → Att
unfolding respond drop_pending_req
finish_req rsp_opcode rsp_pdu op react att =
    wakeup_writer (drop_pending_req (respond rsp_opcode rsp_pdu op react att))

-- a response that is not retried; `req_opcode` is that of the request that it claims to answer.
unfoldable pub match_rsp : (req_opcode opcode : ℕ) (pdu : List ℕ) → SendOp → List Call → Att → Att
match_rsp req_opcode opcode pdu op react att =
    if req_opcode == 0 && not (opcode == error_rsp)
    then finish_req error_rsp [] op react att
    else if req_opcode == op.opcode
    then finish_req opcode pdu op react att
    else finish_req error_rsp [] op react att

unfoldable pub handle_rsp : (opcode : ℕ) (pdu : List ℕ) → List Call → Att → Att
handle_rsp opcode pdu react att = elim att.pending_req [
  | none ↦ io_shutdown att
  | some op ↦
      let (retry, req_opcode, att') = handle_error_rsp pdu op att in
      if not (opcode == error_rsp)
      then match_rsp (get_req_opcode opcode) opcode pdu op react att
      else if retry
      then wakeup_writer att'
      else match_rsp req_opcode opcode pdu op react att'
]

unfoldable pub handle_conf : (pdu : List ℕ) → List Call → Att → Att
unfolding respond drop_pending_ind
handle_conf pdu react att = elim att.pending_ind [
  | none ↦ io_shutdown att
  | some op ↦
      if length pdu == 0
      then wakeup_writer (drop_pending_ind (respond handle_val_conf [] op react att))
      else io_shutdown att
]

-- the end of `timeout_cb` for the operation that was taken away. The source reads the bearer after the
-- callback, also if that gave back the last reference; here its record is still there.
unfoldable pub expire : SendOp → List Call → Att → Att
expire op react att =
    let told =
      (if att.timeout_callback == 0
        then att
        else perform_all react
            (logged (timed_out att.timeout_callback op.id op.opcode att.timeout_data) att)) in
    io_shutdown (record told { log = destroy_att_send_op (record op { timeout_id = 0 }) told.log })

-- `timeout_cb` of the timer that was started for the operation `id`
unfoldable pub timeout_cb : (id : ℕ) → List Call → Att → Att
timeout_cb id react att =
    if has_id id att.pending_req
    then elim att.pending_req [
      | none ↦ att
      | some op ↦ expire op react (record att { pending_req = none })
    ]
    else if has_id id att.pending_ind
    then elim att.pending_ind [
      | none ↦ att
      | some op ↦ expire op react (record att { pending_ind = none })
    ]
    else att
