-- ===== src/Bluez/Att/Calls.antt =====
-- lib/bluez/att.c: sending, cancelling and registering, and the end of a bearer.
use minipro.Base.{
  ℕ, ◌+◌, ◌%◌, ◌^◌, Bool, true, false, not, ◌&&◌, ◌||◌, Option, none, some, List, [], ◌∷◌, ◌++◌,
  ◌==◌, ltb, if◌then◌else◌, is_some,
}
use minipro.Bluez.Att.{
  SendOp, Notify, Disconn, Event, overran, Att, call_destroy, logged, destroy_att_send_op, forget,
  Send, Made, refused, overrun, made, create_att_send_op,
}
use minipro.Bluez.Att.Opcodes.{request, indication}

abbrev pub is_empty {ℓ} : {A : Type ℓ} → List A → Bool
is_empty [] = true
is_empty (x ∷ xs) = false

-- whether there is something that may be sent now, as `wakeup_writer` asks
abbrev pub can_send : Att → Bool
can_send att =
    not (is_empty att.write_queue)
    || ((not (is_some att.pending_req) && not (is_empty att.req_queue))
        || (not (is_some att.pending_ind) && not (is_empty att.ind_queue)))

unfoldable pub wakeup_writer : Att → Att
wakeup_writer att =
    if att.writer_active
    then att
    else if not (can_send att)
    then att
    else if not (att.io && att.watchable)
    then att
    else record att { writer_active = true }

-- the queue of `bt_att_send` for an operation of this type
unfoldable pub enqueue : SendOp → Att → Att
enqueue op att = elim op.op_type [
  | request ↦ record att { req_queue = att.req_queue ++ (op ∷ []) }
  | indication ↦ record att { ind_queue = att.ind_queue ++ (op ∷ []) }
  | _ ↦ record att { write_queue = att.write_queue ++ (op ∷ []) }
]

-- `if (next < 1) next = 1; next++`
abbrev pub this_id : ℕ → ℕ
this_id next = if ltb next 1 then 1 else next

abbrev pub next_id : ℕ → ℕ
next_id next = (this_id next + 1) % 2 ^ 32

-- `bt_att_send` once it has tried to make the operation; `entry_mem` is the memory for its entry.
unfoldable pub send_made : Made SendOp → (entry_mem : Bool) → Att → ℕ × Att
send_made refused entry_mem att = (0, att)
send_made overrun entry_mem att = (0, logged overran att)
send_made (made op) entry_mem att =
    let id = this_id att.next_send_id in
    let att' = record att { next_send_id = next_id att.next_send_id } in
    if entry_mem then (id, wakeup_writer (enqueue (record op { id = id }) att')) else (0, att')

unfoldable pub bt_att_send : Send → Att → ℕ × Att
unfolding send_made
bt_att_send s att =
    if not att.io then (0, att) else send_made (create_att_send_op att s) s.mem.entry_mem att

-- `queue_remove_if` with `match_op_id`
unfoldable pub remove_op : (id : ℕ) → List SendOp → Option (SendOp × List SendOp)
remove_op id [] = none
remove_op id (op ∷ ops) =
    if op.id == id
    then some (op, ops)
    else elim (remove_op id ops) [ none ↦ none | some (o, rest) ↦ some (o, op ∷ rest) ]

-- `pending && pending->id == id`
abbrev pub has_id : ℕ → Option SendOp → Bool
has_id id none = false
has_id id (some op) = op.id == id

-- `cancel_att_send_op` on the request, and on the indication, that is under way
unfoldable pub cancel_pending_req : Att → Att
cancel_pending_req att = elim att.pending_req [
  | none ↦ att
  | some op ↦ record att {
    pending_req = some (forget op);
    log = call_destroy op.destroy op.user_data att.log;
  }
]

unfoldable pub cancel_pending_ind : Att → Att
cancel_pending_ind att = elim att.pending_ind [
  | none ↦ att
  | some op ↦ record att {
    pending_ind = some (forget op);
    log = call_destroy op.destroy op.user_data att.log;
  }
]

-- the end of `bt_att_cancel`, by what was found in the queues of requests, indications and writes
unfoldable pub cancel_found : (req ind write : Option (SendOp × List SendOp)) → Att → Bool × Att
cancel_found (some (op, rest)) ind write att =
    (true, wakeup_writer (record att { req_queue = rest; log = destroy_att_send_op op att.log }))
cancel_found none (some (op, rest)) write att =
    (true, wakeup_writer (record att { ind_queue = rest; log = destroy_att_send_op op att.log }))
cancel_found none none (some (op, rest)) att =
    (true, wakeup_writer (record att { write_queue = rest; log = destroy_att_send_op op att.log }))
cancel_found none none none att = (false, att)

unfoldable pub cancel_queued : ℕ → Att → Bool × Att
unfolding cancel_found
cancel_queued id att =
    cancel_found (remove_op id att.req_queue) (remove_op id att.ind_queue)
      (remove_op id att.write_queue) att

unfoldable pub bt_att_cancel : ℕ → Att → Bool × Att
bt_att_cancel id att =
    if id == 0
    then (false, att)
    else if has_id id att.pending_req
    then (true, cancel_pending_req att)
    else if has_id id att.pending_ind
    then (true, cancel_pending_ind att)
    else cancel_queued id att

-- `queue_remove_all` with `destroy_att_send_op`
unfoldable pub destroy_ops : List SendOp → List Event → List Event
destroy_ops [] log = log
destroy_ops (op ∷ ops) log = destroy_ops ops (destroy_att_send_op op log)

unfoldable pub bt_att_cancel_all : Att → Att
unfolding cancel_pending_req cancel_pending_ind
bt_att_cancel_all att =
    let log =
      destroy_ops att.write_queue (destroy_ops att.ind_queue (destroy_ops att.req_queue att.log)) in
    cancel_pending_ind (
      cancel_pending_req
        (record att { req_queue = []; ind_queue = []; write_queue = []; log = log }))

-- `bt_att_register`, with the memory for the handler and for its entry
unfoldable pub bt_att_register :
    (opcode callback user_data destroy : ℕ) (mem entry_mem : Bool) → Att → ℕ × Att
bt_att_register opcode callback user_data destroy mem entry_mem att =
    let id = this_id att.next_reg_id in
    let att' = record att { next_reg_id = next_id att.next_reg_id } in
    let notify : Notify = record {
      id = id;
      opcode = opcode;
      callback = callback;
      destroy = destroy;
      user_data = user_data;
    } in
    if (callback == 0 || not att.io) || not mem
    then (0, att)
    else if entry_mem
    then (id, record att' { notify_list = att.notify_list ++ (notify ∷ []) })
    else (0, att')

-- `queue_remove_if` with `match_notify_id`
unfoldable pub remove_notify : (id : ℕ) → List Notify → Option (Notify × List Notify)
remove_notify id [] = none
remove_notify id (n ∷ ns) =
    if n.id == id
    then some (n, ns)
    else elim (remove_notify id ns) [ none ↦ none | some (m, rest) ↦ some (m, n ∷ rest) ]

unfoldable pub bt_att_unregister : ℕ → Att → Bool × Att
bt_att_unregister id att =
    if id == 0 then (false, att) else elim (remove_notify id att.notify_list) [
      | none ↦ (false, att)
      | some (n, rest) ↦ (
        true,
        record att { notify_list = rest; log = call_destroy n.destroy n.user_data att.log },
      )
    ]

unfoldable pub bt_att_register_disconnect :
    (callback user_data destroy : ℕ) (mem entry_mem : Bool) → Att → ℕ × Att
bt_att_register_disconnect callback user_data destroy mem entry_mem att =
    let id = this_id att.next_reg_id in
    let att' = record att { next_reg_id = next_id att.next_reg_id } in
    let disconn : Disconn = record {
      id = id;
      callback = callback;
      destroy = destroy;
      user_data = user_data;
    } in
    if not att.io || not mem
    then (0, att)
    else if entry_mem
    then (id, record att' { disconn_list = att.disconn_list ++ (disconn ∷ []) })
    else (0, att')

-- `queue_remove_if` with `match_disconn_id`
unfoldable pub remove_disconn : (id : ℕ) → List Disconn → Option (Disconn × List Disconn)
remove_disconn id [] = none
remove_disconn id (d ∷ ds) =
    if d.id == id
    then some (d, ds)
    else elim (remove_disconn id ds) [ none ↦ none | some (m, rest) ↦ some (m, d ∷ rest) ]

unfoldable pub bt_att_unregister_disconnect : ℕ → Att → Bool × Att
bt_att_unregister_disconnect id att =
    if id == 0 then (false, att) else elim (remove_disconn id att.disconn_list) [
      | none ↦ (false, att)
      | some (d, rest) ↦ (
        true,
        record att { disconn_list = rest; log = call_destroy d.destroy d.user_data att.log },
      )
    ]

-- `queue_remove_all` with `destroy_att_notify`, and with `destroy_att_disconn`
unfoldable pub destroy_notifies : List Notify → List Event → List Event
destroy_notifies [] log = log
destroy_notifies (n ∷ ns) log = destroy_notifies ns (call_destroy n.destroy n.user_data log)

unfoldable pub destroy_disconns : List Disconn → List Event → List Event
destroy_disconns [] log = log
destroy_disconns (d ∷ ds) log = destroy_disconns ds (call_destroy d.destroy d.user_data log)

unfoldable pub bt_att_unregister_all : Att → Att
bt_att_unregister_all att = record att {
  notify_list = [];
  disconn_list = [];
  log = destroy_disconns att.disconn_list (destroy_notifies att.notify_list att.log);
}
