-- ===== src/Bluez/Att/Wakeups.antt =====
-- No wake-up is lost in a whole run.
use minipro.Base.{
  ℕ, zero, suc, ◌+◌, ◌-◌, ◌≡◌, refl, Bool, true, false, not, ◌&&◌, ◌||◌, Option, none, some, List,
  [], ◌∷◌, arith, ◌==◌, if◌then◌else◌, if_lem, option_lem, length, take,
}
use minipro.Bluez.Att.{Disconn, Event, disconnected, Att, Memory, io_shutdown, signature_len}
use minipro.Bluez.Att.Opcodes.{
  request, response, confirmation, get_op_type, is_signed, is_request, opcode_match,
}
use minipro.Bluez.Att.Calls.{can_send, bt_att_cancel_all, bt_att_unregister_all, is_empty}
use minipro.Bluez.Att.Life.{Below, bt_att_new, bt_att_ref, bt_att_unref, Call}
use minipro.Bluez.Att.Writer.{handle_rsp, handle_conf}
use minipro.Bluez.Att.Reader.{
  handle_signed, error_send, respond_not_supported, find_notify, first_id, next_notify, react_of,
  later, tell, notify_loop, calls_in, notify_all, handle_notify, receive, can_read_data,
  tell_disconn, disconnect_cb, Input, called, writable, readable, timeout, hangup, step, run,
}
use minipro.Bluez.Att.Awake.{
  IsAwake, was_shut, bt_att_send-IsAwake, cancel_all-IsAwake, unregister_all-IsAwake,
  bt_att_unref-IsAwake, perform-IsAwake,
}
use minipro.Bluez.Att.Progress.{
  io_shutdown-IsAwake, tell-IsAwake, on_writable-IsAwake, handle_rsp-IsAwake, handle_conf-IsAwake,
  timeout_cb-IsAwake,
}

notify_loop-IsAwake :
    (rounds : ℕ) (entry : Option ℕ) (opcode : ℕ) (pdu : List ℕ) (reacts : List (List Call))
    (found : Bool) (att : Att)
    → IsAwake att
    → IsAwake (notify_loop rounds entry opcode pdu reacts found att).1
unfolding notify_loop
notify_loop-IsAwake zero entry opcode pdu reacts found att h = h
notify_loop-IsAwake (suc rounds) none opcode pdu reacts found att h = h
notify_loop-IsAwake (suc rounds) (some id) opcode pdu reacts found att h =
    option_lem (λ (r : Bool × Att). IsAwake r.1) (find_notify id att.notify_list) (λ _. h)
      λ x e.
        let hit = opcode_match x.opcode opcode in
        let att' = (if hit then tell opcode pdu x (react_of reacts) att else att) in
        let told =
          if_lem IsAwake hit (λ _. tell-IsAwake opcode pdu x (react_of reacts) att h) (λ _. h) in
        notify_loop-IsAwake rounds
          (if hit && is_empty att'.notify_list then none else next_notify id att.notify_list) opcode
          pdu (if hit then later reacts else reacts) (hit || found) att' told

notify_all-IsAwake :
    (opcode : ℕ) (pdu : List ℕ) (reacts : List (List Call)) (mem : Memory) (att : Att)
    → IsAwake att
    → IsAwake (notify_all opcode pdu reacts mem att)
unfolding notify_all respond_not_supported bt_att_ref
notify_all-IsAwake opcode pdu reacts mem att h =
    let r =
      notify_loop (suc (length att.notify_list + calls_in reacts)) (first_id att.notify_list) opcode
        pdu reacts false (bt_att_ref att) in
    let told =
      notify_loop-IsAwake (suc (length att.notify_list + calls_in reacts))
        (first_id att.notify_list) opcode pdu reacts false (bt_att_ref att) h in
    bt_att_unref-IsAwake
      (if not r.0 && is_request (get_op_type opcode)
        then respond_not_supported opcode mem r.1
        else r.1)
      (if_lem IsAwake (not r.0 && is_request (get_op_type opcode))
        (λ _. bt_att_send-IsAwake (error_send opcode 0 6 mem) r.1 told) (λ _. told))

handle_notify-IsAwake :
    (opcode : ℕ) (pdu : List ℕ) (reacts : List (List Call)) (mem : Memory) (att : Att)
    → IsAwake att
    → IsAwake (handle_notify opcode pdu reacts mem att)
unfolding handle_notify
handle_notify-IsAwake opcode pdu reacts mem att h =
    if_lem IsAwake (is_signed opcode && not att.ext_signed)
      (λ _.
        if_lem IsAwake (handle_signed pdu att)
          (λ _. notify_all-IsAwake opcode (take (length pdu - signature_len) pdu) reacts mem att h)
          (λ _. h))
      (λ _. notify_all-IsAwake opcode pdu reacts mem att h)

receive-IsAwake :
    (opcode : ℕ) (pdu : List ℕ) (reacts : List (List Call)) (mem : Memory) (att : Att)
    → IsAwake att
    → IsAwake (receive opcode pdu reacts mem att)
unfolding receive
receive-IsAwake opcode pdu reacts mem att h =
    elim (get_op_type opcode)
      as (λ t. IsAwake (elim t [
        | response ↦ handle_rsp opcode pdu (react_of reacts) att
        | confirmation ↦ handle_conf pdu (react_of reacts) att
        | request ↦
            if att.in_req
            then io_shutdown att
            else handle_notify opcode pdu reacts mem (record att { in_req = true })
        | _ ↦ handle_notify opcode pdu reacts mem att
      ])) [
        | response ↦ handle_rsp-IsAwake opcode pdu (react_of reacts) att
        | confirmation ↦ handle_conf-IsAwake pdu (react_of reacts) att
        | request ↦
            if_lem IsAwake att.in_req (λ _. io_shutdown-IsAwake att)
              (λ _. handle_notify-IsAwake opcode pdu reacts mem (record att { in_req = true }) h)
        | _ ↦ handle_notify-IsAwake opcode pdu reacts mem att h
      ]

can_read-IsAwake :
    (bytes : Option (List ℕ)) (reacts : List (List Call)) (mem : Memory) (att : Att)
    → IsAwake att
    → IsAwake (can_read_data bytes reacts mem att)
unfolding can_read_data bt_att_ref
can_read-IsAwake none reacts mem att h = h
can_read-IsAwake (some bytes) reacts mem att h =
    elim (take att.mtu bytes)
      as (λ l. IsAwake (elim l [
        | [] ↦ att
        | opcode ∷ pdu ↦ bt_att_unref (receive opcode pdu reacts mem (bt_att_ref att))
      ])) [
        | [] ↦ h
        | opcode ∷ pdu ↦
            bt_att_unref-IsAwake (receive opcode pdu reacts mem (bt_att_ref att))
              (receive-IsAwake opcode pdu reacts mem (bt_att_ref att) h)
      ]

was_shut-tell_disconn :
    (err : ℕ) (ds : List Disconn) (log : List Event)
    → was_shut (tell_disconn err ds log) ≡ was_shut log
unfolding tell_disconn
was_shut-tell_disconn err [] log = refl
was_shut-tell_disconn err (d ∷ ds) log =
    let rest =
      was_shut-tell_disconn err ds
        (if d.callback == 0 then log else disconnected d.callback err d.user_data ∷ log) in
    ground arith

disconnect-IsAwake : (err : ℕ) (att : Att) → IsAwake (disconnect_cb err att)
unfolding disconnect_cb bt_att_ref
disconnect-IsAwake err att =
    let lost = bt_att_ref (bt_att_cancel_all (record att { io = false; writer_active = false })) in
    let told = record lost { log = tell_disconn err lost.disconn_list lost.log } in
    bt_att_unref-IsAwake (bt_att_unregister_all told) (
      unregister_all-IsAwake told (
        rw (was_shut-tell_disconn err lost.disconn_list lost.log)
          (cancel_all-IsAwake (record att { io = false; writer_active = false }))))

step-IsAwake : (i : Input) (att : Att) → IsAwake att → IsAwake (step i att)
unfolding step
step-IsAwake (called c) att h = perform-IsAwake c att h
step-IsAwake (writable sent timer react) att h = on_writable-IsAwake sent timer react att h
step-IsAwake (readable bytes reacts mem) att h = can_read-IsAwake bytes reacts mem att h
step-IsAwake (timeout id react) att h = timeout_cb-IsAwake id react att h
step-IsAwake (hangup err) att h = disconnect-IsAwake err att

run-IsAwake : (is : List Input) (att : Att) → IsAwake att → IsAwake (run is att)
unfolding run
run-IsAwake [] att h = h
run-IsAwake (i ∷ is) att h = run-IsAwake is (step i att) (step-IsAwake i att h)

new-IsAwake : (below : Below) (ext_signed : Bool) → IsAwake (bt_att_new below ext_signed)
unfolding bt_att_new
new-IsAwake below ext_signed = ground arith

-- No wake-up is lost: however far a run has come, a bearer that has something it may send waits for its
-- file to become writable, unless there is no io any more, the main loop refuses to watch it, or the
-- link was shut down.
pub no_lost_wakeup :
    (below : Below) (ext_signed : Bool) (inputs : List Input)
    → let att = run inputs (bt_att_new below ext_signed) in
      can_send att ≡ true
      → att.io && att.watchable ≡ true
      → was_shut att.log ≡ false
      → att.writer_active ≡ true
no_lost_wakeup below ext_signed inputs pending works open' =
    let h = run-IsAwake inputs (bt_att_new below ext_signed) (new-IsAwake below ext_signed) in
    ground arith
