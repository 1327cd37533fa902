-- ===== src/Bluez/Att/Run.antt =====
-- Every destructor that a bearer takes over is called once, whatever happens to it.
use minipro.Base.{
  ℕ, zero, suc, ◌+◌, ◌-◌, ◌%◌, ◌^◌, ◌≡◌, refl, subst, Bool, true, false, not, ◌&&◌, Option, none,
  some, List, [], ◌∷◌, arith, ◌==◌, if◌then◌else◌, All, Bool-cases, if_lem, option_lem, inl, inr,
  length, take,
}
use minipro.Bluez.Att.{
  Notify, Disconn, Event, accepted, disconnected, Att, logged, Memory, io_shutdown,
}
use minipro.Bluez.Att.Opcodes.{
  request, response, confirmation, get_op_type, is_signed, opcode_match,
}
use minipro.Bluez.Att.Life.{Below, bt_att_new, granted_if, bt_att_ref, bt_att_unref, Call}
use minipro.Bluez.Att.Writer.{handle_rsp, handle_conf}
use minipro.Bluez.Att.Reader.{
  handle_signed, error_send, respond_not_supported, find_notify, first_id, react_of, tell,
  notify_loop, calls_in, notify_all, handle_notify, receive, can_read_data, tell_disconn,
  disconnect_cb, Input, called, writable, readable, timeout, hangup, step, run,
}
use minipro.Bluez.Att.Holds.{
  Holds, Held, IsRequestOp, IsIndicationOp, IsWriteOp, owed, paid, granted,
}
use minipro.Bluez.Att.Balance.{bt_att_cancel_all-Holds}
use minipro.Bluez.Att.Sending.{bt_att_send-Holds}
use minipro.Bluez.Att.Conserved.{
  perform-Holds, perform_all-Holds, bt_att_ref-Holds, bt_att_unref-Holds, unregister_all-Holds,
}
use minipro.Bluez.Att.Answered.{
  on_writable-Holds, handle_rsp-Holds, handle_conf-Holds, timeout_cb-Holds, io_shutdown-Holds,
}

module _ (mine : ℕ → ℕ → Bool) where
  tell-Holds :
      (n opcode : ℕ) (pdu : List ℕ) (x : Notify) (react : List Call) (att : Att)
      → Holds mine n att
      → Holds mine n (tell opcode pdu x react att)
  unfolding tell
  tell-Holds n opcode pdu x react att h =
      if_lem (Holds mine n) (x.callback == 0) (λ _. h)
        (λ _. perform_all-Holds mine n react _ (ground arith))

  notify_loop-Holds :
      (n rounds : ℕ) (entry : Option ℕ) (opcode : ℕ) (pdu : List ℕ) (reacts : List (List Call))
      (found : Bool) (att : Att)
      → Holds mine n att
      → Holds mine n (notify_loop rounds entry opcode pdu reacts found att).1
  unfolding notify_loop
  notify_loop-Holds n zero entry opcode pdu reacts found att h = h
  notify_loop-Holds n (suc rounds) none opcode pdu reacts found att h = h
  notify_loop-Holds n (suc rounds) (some id) opcode pdu reacts found att h =
      option_lem (λ (r : Bool × Att). Holds mine n r.1) (find_notify id att.notify_list)
        (λ _. ground arith)
        (λ x e. notify_loop-Holds n rounds _ opcode pdu _ _ _ (
          if_lem (Holds mine n) (opcode_match x.opcode opcode)
            (λ _. tell-Holds n opcode pdu x (react_of reacts) att h) (λ _. h)))

  -- A call that hands over no destructor leaves the books alone.
  granted_nothing : (n : ℕ) (r : ℕ × Att) → Holds mine n (granted_if 0 0 r) → Holds mine n r.1
  granted_nothing n (id, att) h = elim (Bool-cases (id == 0)) [
    | inl e ↦ subst (Holds mine n) (rw e) h
    | inr e ↦
        let h' : Holds mine n (logged (accepted 0 0) att) = subst (Holds mine n) (rw e) h in
        ground arith
  ]

  respond_not_supported-Holds :
      (n opcode : ℕ) (mem : Memory) (att : Att)
      → Holds mine n att
      → Holds mine n (respond_not_supported opcode mem att)
  unfolding respond_not_supported
  respond_not_supported-Holds n opcode mem att h =
      granted_nothing n _ (bt_att_send-Holds mine n (error_send opcode 0 6 mem) att h)

  notify_all-Holds :
      (n opcode : ℕ) (pdu : List ℕ) (reacts : List (List Call)) (mem : Memory) (att : Att)
      → Holds mine n att
      → Holds mine n (notify_all opcode pdu reacts mem att)
  unfolding notify_all bt_att_ref
  notify_all-Holds n opcode pdu reacts mem att h =
      let told =
        notify_loop-Holds n (suc (length att.notify_list + calls_in reacts))
          (first_id att.notify_list) opcode pdu reacts false _ (bt_att_ref-Holds mine n att h) in
      bt_att_unref-Holds mine n _
        (if_lem (Holds mine n) _ (λ _. respond_not_supported-Holds n opcode mem _ told) (λ _. told))

  handle_notify-Holds :
      (n opcode : ℕ) (pdu : List ℕ) (reacts : List (List Call)) (mem : Memory) (att : Att)
      → Holds mine n att
      → Holds mine n (handle_notify opcode pdu reacts mem att)
  unfolding handle_notify
  handle_notify-Holds n opcode pdu reacts mem att h =
      if_lem (Holds mine n) (is_signed opcode && not att.ext_signed)
        (λ _.
          if_lem (Holds mine n) (handle_signed pdu att)
            (λ _. notify_all-Holds n opcode _ reacts mem att h) (λ _. h))
        (λ _. notify_all-Holds n opcode pdu reacts mem att h)

  receive-Holds :
      (n opcode : ℕ) (pdu : List ℕ) (reacts : List (List Call)) (mem : Memory) (att : Att)
      → Holds mine n att
      → Holds mine n (receive opcode pdu reacts mem att)
  unfolding receive
  receive-Holds n opcode pdu reacts mem att h =
      let told = handle_notify-Holds n opcode pdu reacts mem att h in
      let asked =
        if_lem (Holds mine n) att.in_req (λ _. io_shutdown-Holds mine n att h)
          (λ _.
            handle_notify-Holds n opcode pdu reacts mem (record att { in_req = true })
              (ground arith)) in
      elim (get_op_type opcode)
        as (λ t. Holds mine n (elim t [
          | response ↦ handle_rsp opcode pdu (react_of reacts) att
          | confirmation ↦ handle_conf pdu (react_of reacts) att
          | request ↦
              if att.in_req
              then io_shutdown att
              else handle_notify opcode pdu reacts mem (record att { in_req = true })
          | _ ↦ handle_notify opcode pdu reacts mem att
        ])) [
          | response ↦ handle_rsp-Holds mine n opcode pdu (react_of reacts) att h
          | confirmation ↦ handle_conf-Holds mine n pdu (react_of reacts) att h
          | request ↦ asked
          | _ ↦ told
        ]

  can_read-Holds :
      (n : ℕ) (bytes : Option (List ℕ)) (reacts : List (List Call)) (mem : Memory) (att : Att)
      → Holds mine n att
      → Holds mine n (can_read_data bytes reacts mem att)
  unfolding can_read_data
  can_read-Holds n none reacts mem att h = h
  can_read-Holds n (some bytes) reacts mem att h =
      elim (take att.mtu bytes)
        as (λ l. Holds mine n (elim l [
          | [] ↦ att
          | opcode ∷ pdu ↦ bt_att_unref (receive opcode pdu reacts mem (bt_att_ref att))
        ])) [
          | [] ↦ h
          | opcode ∷ pdu ↦
              bt_att_unref-Holds mine n _
                (receive-Holds n opcode pdu reacts mem _ (bt_att_ref-Holds mine n att h))
        ]

  tell_disconn_lem :
      (err : ℕ) (ds : List Disconn) (log : List Event)
      → (paid mine (tell_disconn err ds log) ≡ paid mine log)
        × (granted mine (tell_disconn err ds log) ≡ granted mine log)
  unfolding tell_disconn
  tell_disconn_lem err [] log = (refl, refl)
  tell_disconn_lem err (d ∷ ds) log =
      let rest =
        tell_disconn_lem err ds
          (if d.callback == 0 then log else disconnected d.callback err d.user_data ∷ log) in
      ground arith

  told-Holds :
      (n err : ℕ) (att : Att)
      → Holds mine n att
      → Holds mine n (record att { log = tell_disconn err att.disconn_list att.log })
  told-Holds n err att h = ground (arith, tell_disconn_lem err att.disconn_list att.log)

  disconnect-Holds :
      (n err : ℕ) (att : Att) → Holds mine n att → Holds mine n (disconnect_cb err att)
  unfolding disconnect_cb
  disconnect-Holds n err att h =
      let lost = bt_att_ref-Holds mine n _ (
        bt_att_cancel_all-Holds mine n (record att { io = false; writer_active = false })
          (ground arith)) in
      bt_att_unref-Holds mine n _ (unregister_all-Holds mine n _ (told-Holds n err _ lost))

  step-Holds : (n : ℕ) (i : Input) (att : Att) → Holds mine n att → Holds mine n (step i att)
  unfolding step
  step-Holds n (called c) att h = perform-Holds mine n c att h
  step-Holds n (writable sent timer react) att h = on_writable-Holds mine n sent timer react att h
  step-Holds n (readable bytes reacts mem) att h = can_read-Holds n bytes reacts mem att h
  step-Holds n (timeout id react) att h = timeout_cb-Holds mine n id react att h
  step-Holds n (hangup err) att h = disconnect-Holds n err att h

  run-Holds : (n : ℕ) (is : List Input) (att : Att) → Holds mine n att → Holds mine n (run is att)
  unfolding run
  run-Holds n [] att h = h
  run-Holds n (i ∷ is) att h = run-Holds n is (step i att) (step-Holds n i att h)

  new-Holds : (below : Below) (ext_signed : Bool) → Holds mine 0 (bt_att_new below ext_signed)
  unfolding bt_att_new
  new-Holds below ext_signed = ground arith

  -- Nothing is owed by a bearer that was freed.
  owed-last_unref : (att : Att) → att.ref_count ≡ 1 → owed mine (bt_att_unref att) ≡ 0
  unfolding bt_att_unref
  owed-last_unref att e =
      if_lem (λ (a : Att). owed mine a ≡ 0) ((att.ref_count + (2 ^ 32 - 1)) % 2 ^ 32 == 0)
        (λ _. omega arith) (λ more. absurd (ground arith))

  -- Whatever its users, their callbacks, the remote end, the timers and the link do to a bearer: once
  -- its last reference is given back, each destructor has been called exactly as often, with its data,
  -- as it was handed over in a call that succeeded, be it with an operation, a handler or the timeout
  -- callback. Callbacks may call att.c again, destructors and the handlers of a lost link do not.
  pub destroyed_once :
      (below : Below) (ext_signed : Bool) (inputs : List Input)
      → (run inputs (bt_att_new below ext_signed)).ref_count ≡ 1
      → let log = (bt_att_unref (run inputs (bt_att_new below ext_signed))).log in
        paid mine log ≡ granted mine log
  destroyed_once below ext_signed inputs e =
      let att = run inputs (bt_att_new below ext_signed) in
      let books =
        bt_att_unref-Holds mine 0 att (run-Holds 0 inputs _ (new-Holds below ext_signed)) in
      omega (arith, books.even, owed-last_unref att e)

  -- However far a run has come, the destructors that were called and those that the bearer still holds
  -- are together those that were handed over, so that none is called twice; and the queue of requests
  -- and the pending request are requests, the queue of indications and the pending indication are
  -- indications, and only operations that get no answer wait to be written at once.
  pub run_kinds :
      (below : Below) (ext_signed : Bool) (inputs : List Input)
      → let att = run inputs (bt_att_new below ext_signed) in
        (paid mine att.log + owed mine att ≡ granted mine att.log)
        × (All IsRequestOp att.req_queue × Held IsRequestOp att.pending_req)
        × (All IsIndicationOp att.ind_queue × Held IsIndicationOp att.pending_ind)
        × All IsWriteOp att.write_queue
  run_kinds below ext_signed inputs =
      let h = run-Holds 0 inputs _ (new-Holds below ext_signed) in
      (omega (arith, h.even), (h.reqs, h.req), (h.inds, h.ind), h.writes)
