-- ===== src/Bluez/Att/Answered.antt =====
-- The writer, responses, confirmations and timeouts keep the balance of destructors.
use minipro.Base.{
  ℕ, ◌+◌, ◌≡◌, subst, ◌∙◌, Bool, not, ◌&&◌, Option, none, some, List, [], ◌∷◌, arith, ◌==◌, if_lem,
  option_lem, Option-cases, inl, inr, length,
}
use minipro.Bluez.Att.{SendOp, wrote, shut, Att, logged, destroy_att_send_op, io_shutdown}
use minipro.Bluez.Att.Opcodes.{
  OpType, request, indication, error_rsp, get_req_opcode, handle_val_conf,
}
use minipro.Bluez.Att.Calls.{has_id}
use minipro.Bluez.Att.Life.{bt_att_get_security, bt_att_set_security, Call}
use minipro.Bluez.Att.Writer.{
  pick_next_send_op, respond, written, can_write_data, on_writable, drop_pending_req,
  drop_pending_ind, change_security, handle_error_rsp, finish_req, match_rsp, handle_rsp,
  handle_conf, expire, timeout_cb,
}
use minipro.Bluez.Att.Holds.{Holds, owed_op, paid-destroy_op}
use minipro.Bluez.Att.Balance.{wakeup_writer-Holds}
use minipro.Bluez.Att.Conserved.{perform_all-Holds, set_security-Holds}

module _ (mine : ℕ → ℕ → Bool) where
  -- the place where an operation of this type goes once it is written is free
  abbrev Fits : OpType → Att → Type 0
  Fits request att = att.pending_req ≡ none
  Fits indication att = att.pending_ind ≡ none
  Fits _ att = Unit {0}

  Fits-wrote :
      (bytes : List ℕ) (t : OpType) (att : Att) → Fits t att → Fits t (logged (wrote bytes) att)
  Fits-wrote bytes t att f = ground arith

  abbrev Picked : ℕ → Option (SendOp × Att) → Type 0
  Picked n none = Unit {0}
  Picked n (some (op, att)) = Holds mine (n + owed_op mine op) att × Fits op.op_type att

  pick-Picked : (n : ℕ) (att : Att) → Holds mine n att → Picked n (pick_next_send_op att)
  unfolding pick_next_send_op
  pick-Picked n att h = ground arith

  logged-Holds : (n : ℕ) (att : Att) → Holds mine n att → Holds mine n (logged shut att)
  logged-Holds n att h = ground arith

  respond-Holds :
      (n opcode : ℕ) (pdu : List ℕ) (op : SendOp) (react : List Call) (att : Att)
      → Holds mine n att
      → Holds mine n (respond opcode pdu op react att)
  unfolding respond
  respond-Holds n opcode pdu op react att h =
      if_lem (Holds mine n) (op.callback == 0) (λ _. h)
        (λ _. perform_all-Holds mine n react _ (ground arith))

  written-Holds :
      (n : ℕ) (op : SendOp) (timer : Option ℕ) (att : Att)
      → Fits op.op_type att
      → Holds mine (n + owed_op mine op) att
      → Holds mine n (written op timer att)
  unfolding written
  written-Holds n op timer att f h = ground (arith, paid-destroy_op mine op att.log)

  destroyed-Holds :
      (n : ℕ) (op : SendOp) (att : Att)
      → Holds mine (n + owed_op mine op) att
      → Holds mine n (record att { log = destroy_att_send_op op att.log })
  destroyed-Holds n op att h = ground (arith, paid-destroy_op mine op att.log)

  drop_pending_req-Holds :
      (n : ℕ) (att : Att) → Holds mine n att → Holds mine n (drop_pending_req att)
  unfolding drop_pending_req
  drop_pending_req-Holds n att h = elim (Option-cases att.pending_req) [
    | inl e ↦ ground arith
    | inr (op, e) ↦ ground (arith, paid-destroy_op mine op att.log)
  ]

  drop_pending_ind-Holds :
      (n : ℕ) (att : Att) → Holds mine n att → Holds mine n (drop_pending_ind att)
  unfolding drop_pending_ind
  drop_pending_ind-Holds n att h = elim (Option-cases att.pending_ind) [
    | inl e ↦ ground arith
    | inr (op, e) ↦ ground (arith, paid-destroy_op mine op att.log)
  ]

  pub io_shutdown-Holds : (n : ℕ) (att : Att) → Holds mine n att → Holds mine n (io_shutdown att)
  unfolding io_shutdown
  io_shutdown-Holds n att h = if_lem (Holds mine n) att.io (λ _. logged-Holds n att h) (λ _. h)

  -- the popped operation, by what was picked
  can_write-Holds :
      (n : ℕ) (sent : Bool) (timer : Option ℕ) (react : List Call) (att : Att)
      → Holds mine n att
      → Holds mine n (can_write_data sent timer react att).1
  unfolding can_write_data
  can_write-Holds n sent timer react att h =
      option_lem (λ (r : Bool × Att). Holds mine n r.1) (pick_next_send_op att) (λ _. h)
        (λ (op, att') e.
          let (h', f) = subst (Picked n) e (pick-Picked n att h) in
          if_lem (λ (r : Bool × Att). Holds mine n r.1) sent
            (λ _.
              written-Holds n op timer (logged (wrote op.pdu) att')
                (Fits-wrote op.pdu op.op_type att' f) (ground arith))
            (λ _. destroyed-Holds n op _ (respond-Holds _ error_rsp [] op react att' h')))

  pub on_writable-Holds :
      (n : ℕ) (sent : Bool) (timer : Option ℕ) (react : List Call) (att : Att)
      → Holds mine n att
      → Holds mine n (on_writable sent timer react att)
  unfolding on_writable
  on_writable-Holds n sent timer react att h =
      let h' = can_write-Holds n sent timer react att h in
      if_lem (Holds mine n) (not att.writer_active) (λ _. h)
        (λ _.
          if_lem (Holds mine n) (can_write_data sent timer react att).0 (λ _. h')
            (λ _. ground arith))

  same_pending :
      (ecode : ℕ) (att : Att) → (change_security ecode att).1.pending_req ≡ att.pending_req
  unfolding change_security bt_att_set_security
  same_pending ecode att = ground arith

  retry-Holds :
      (n : ℕ) (op : SendOp) (att : Att)
      → att.pending_req ≡ some op
      → Holds mine n att
      → Holds mine n (record att { pending_req = none; req_queue = op ∷ att.req_queue })
  retry-Holds n op att e h = ground arith

  change_security-Holds :
      (n ecode : ℕ) (att : Att)
      → Holds mine n att
      → Holds mine n (change_security ecode att).1
        × ((change_security ecode att).1.pending_req ≡ att.pending_req)
  unfolding change_security
  change_security-Holds n ecode att h = (
    option_lem (λ (r : Bool × Att). Holds mine n r.1) (bt_att_get_security att) (λ _. h)
        (λ security e.
          ground (arith, set_security-Holds mine n 2 att h, set_security-Holds mine n 3 att h)),
    same_pending ecode att,
  )

  expire-Holds :
      (n : ℕ) (op : SendOp) (react : List Call) (att : Att)
      → Holds mine (n + owed_op mine op) att
      → Holds mine n (expire op react att)
  unfolding expire
  expire-Holds n op react att h = io_shutdown-Holds n _ (
      destroyed-Holds n _ _ (
        if_lem (Holds mine (n + owed_op mine op)) (att.timeout_callback == 0) (λ _. h)
          (λ _. perform_all-Holds mine _ react _ (ground arith))))

  pub timeout_cb-Holds :
      (n id : ℕ) (react : List Call) (att : Att)
      → Holds mine n att
      → Holds mine n (timeout_cb id react att)
  unfolding timeout_cb
  timeout_cb-Holds n id react att h =
      if_lem (Holds mine n) (has_id id att.pending_req)
        (λ _.
          option_lem (Holds mine n) att.pending_req (λ _. h)
            (λ op e. expire-Holds n op react _ (ground arith)))
        (λ _.
          if_lem (Holds mine n) (has_id id att.pending_ind)
            (λ _.
              option_lem (Holds mine n) att.pending_ind (λ _. h)
                (λ op e. expire-Holds n op react _ (ground arith)))
            (λ _. h))

  finish_req-Holds :
      (n rsp_opcode : ℕ) (rsp_pdu : List ℕ) (op : SendOp) (react : List Call) (att : Att)
      → Holds mine n att
      → Holds mine n (finish_req rsp_opcode rsp_pdu op react att)
  unfolding finish_req
  finish_req-Holds n rsp_opcode rsp_pdu op react att h =
      wakeup_writer-Holds mine n _
        (drop_pending_req-Holds n _ (respond-Holds n rsp_opcode rsp_pdu op react att h))

  match_rsp-Holds :
      (n req_opcode opcode : ℕ) (pdu : List ℕ) (op : SendOp) (react : List Call) (att : Att)
      → Holds mine n att
      → Holds mine n (match_rsp req_opcode opcode pdu op react att)
  unfolding match_rsp
  match_rsp-Holds n req_opcode opcode pdu op react att h =
      let fail = finish_req-Holds n error_rsp [] op react att h in
      if_lem (Holds mine n) (req_opcode == 0 && not (opcode == error_rsp)) (λ _. fail)
        λ _.
          if_lem (Holds mine n) (req_opcode == op.opcode)
            (λ _. finish_req-Holds n opcode pdu op react att h) (λ _. fail)

  handle_error_rsp-Holds :
      (n : ℕ) (pdu : List ℕ) (op : SendOp) (att : Att)
      → att.pending_req ≡ some op
      → Holds mine n att
      → Holds mine n (handle_error_rsp pdu op att).2
  unfolding handle_error_rsp
  handle_error_rsp-Holds n (o ∷ lo ∷ hi ∷ ecode ∷ []) op att e h =
      let (h', same) = change_security-Holds n ecode att h in
      if_lem (λ (r : Bool × ℕ × Att). Holds mine n r.2) (change_security ecode att).0
        (λ _. retry-Holds n op (change_security ecode att).1 (same ∙ e) h') (λ _. h')
  handle_error_rsp-Holds n [] op att e h = h
  handle_error_rsp-Holds n (_ ∷ []) op att e h = h
  handle_error_rsp-Holds n (_ ∷ _ ∷ []) op att e h = h
  handle_error_rsp-Holds n (_ ∷ _ ∷ _ ∷ []) op att e h = h
  handle_error_rsp-Holds n (_ ∷ _ ∷ _ ∷ _ ∷ _ ∷ _) op att e h = h

  pub handle_conf-Holds :
      (n : ℕ) (pdu : List ℕ) (react : List Call) (att : Att)
      → Holds mine n att
      → Holds mine n (handle_conf pdu react att)
  unfolding handle_conf
  handle_conf-Holds n pdu react att h =
      option_lem (Holds mine n) att.pending_ind (λ _. io_shutdown-Holds n att h)
        λ op e.
          if_lem (Holds mine n) (length pdu == 0)
            (λ _.
              wakeup_writer-Holds mine n _
                (drop_pending_ind-Holds n _ (respond-Holds n handle_val_conf [] op react att h)))
            (λ _. io_shutdown-Holds n att h)

  pub handle_rsp-Holds :
      (n opcode : ℕ) (pdu : List ℕ) (react : List Call) (att : Att)
      → Holds mine n att
      → Holds mine n (handle_rsp opcode pdu react att)
  unfolding handle_rsp
  handle_rsp-Holds n opcode pdu react att h =
      option_lem (Holds mine n) att.pending_req (λ _. io_shutdown-Holds n att h)
        λ op e.
          let h' = handle_error_rsp-Holds n pdu op att e h in
          if_lem (Holds mine n) (not (opcode == error_rsp))
            (λ _. match_rsp-Holds n (get_req_opcode opcode) opcode pdu op react att h)
            (λ _.
              if_lem (Holds mine n) (handle_error_rsp pdu op att).0
                (λ _. wakeup_writer-Holds mine n _ h')
                (λ _. match_rsp-Holds n _ opcode pdu op react _ h'))
