-- ===== src/Bluez/Att/Balance.antt =====
-- The calls of att.c keep the balance of destructors, and the kinds of operations in each queue.
use minipro.Base.{ℕ, ◌+◌, Bool, Option, none, some, List, [], ◌∷◌, arith, All-append}
use minipro.Bluez.Att.{SendOp, Att, destroy_att_send_op, forget}
use minipro.Bluez.Att.Calls.{
  wakeup_writer, enqueue, cancel_found, destroy_ops, cancel_pending_req, cancel_pending_ind,
  cancel_queued, bt_att_cancel, bt_att_cancel_all,
}
use minipro.Bluez.Att.Holds.{
  Holds, IsRequestOp, IsIndicationOp, IsWriteOp, owed_op, paid-destroy_op, paid-destroy_ops,
  owed_ops-append, OpTaken, remove_op-OpTaken,
}

module _ (mine : ℕ → ℕ → Bool) where
  -- Only what the books are about matters.
  pub wakeup_writer-Holds :
      (n : ℕ) (att : Att) → Holds mine n att → Holds mine n (wakeup_writer att)
  unfolding wakeup_writer
  wakeup_writer-Holds n att h = ground arith

  pub enqueue-Holds :
      (n : ℕ) (op : SendOp) (att : Att)
      → Holds mine (n + owed_op mine op) att
      → Holds mine n (enqueue op att)
  unfolding enqueue
  enqueue-Holds n op att h = ground (
    arith,
    owed_ops-append mine att.req_queue (op ∷ []),
    owed_ops-append mine att.ind_queue (op ∷ []),
    owed_ops-append mine att.write_queue (op ∷ []),
    All-append IsRequestOp att.req_queue (op ∷ []),
    All-append IsIndicationOp att.ind_queue (op ∷ []),
    All-append IsWriteOp att.write_queue (op ∷ []),
  )

  pub cancel_pending_req-Holds :
      (n : ℕ) (att : Att) → Holds mine n att → Holds mine n (cancel_pending_req att)
  unfolding cancel_pending_req forget
  cancel_pending_req-Holds n att h = ground arith

  pub cancel_pending_ind-Holds :
      (n : ℕ) (att : Att) → Holds mine n att → Holds mine n (cancel_pending_ind att)
  unfolding cancel_pending_ind forget
  cancel_pending_ind-Holds n att h = ground arith

  -- an operation that is gone from a queue is destroyed
  drop_req-Holds :
      (n : ℕ) (op : SendOp) (rest : List SendOp) (att : Att)
      → Holds mine n att
      → OpTaken mine IsRequestOp att.req_queue (some (op, rest))
      → Holds mine n
          (wakeup_writer (record att { req_queue = rest; log = destroy_att_send_op op att.log }))
  drop_req-Holds n op rest att h t = wakeup_writer-Holds n _ (record {
    even = omega (arith, h.even, paid-destroy_op mine op att.log);
    reqs = t.1;
    inds = h.inds;
    writes = h.writes;
    req = h.req;
    ind = h.ind;
  })

  drop_ind-Holds :
      (n : ℕ) (op : SendOp) (rest : List SendOp) (att : Att)
      → Holds mine n att
      → OpTaken mine IsIndicationOp att.ind_queue (some (op, rest))
      → Holds mine n
          (wakeup_writer (record att { ind_queue = rest; log = destroy_att_send_op op att.log }))
  drop_ind-Holds n op rest att h t = wakeup_writer-Holds n _ (record {
    even = omega (arith, h.even, paid-destroy_op mine op att.log);
    reqs = h.reqs;
    inds = t.1;
    writes = h.writes;
    req = h.req;
    ind = h.ind;
  })

  drop_write-Holds :
      (n : ℕ) (op : SendOp) (rest : List SendOp) (att : Att)
      → Holds mine n att
      → OpTaken mine IsWriteOp att.write_queue (some (op, rest))
      → Holds mine n
          (wakeup_writer (record att { write_queue = rest; log = destroy_att_send_op op att.log }))
  drop_write-Holds n op rest att h t = wakeup_writer-Holds n _ (record {
    even = omega (arith, h.even, paid-destroy_op mine op att.log);
    reqs = h.reqs;
    inds = h.inds;
    writes = t.1;
    req = h.req;
    ind = h.ind;
  })

  cancel_found-Holds :
      (n : ℕ) (req ind write : Option (SendOp × List SendOp)) (att : Att)
      → Holds mine n att
      → OpTaken mine IsRequestOp att.req_queue req
      → OpTaken mine IsIndicationOp att.ind_queue ind
      → OpTaken mine IsWriteOp att.write_queue write
      → Holds mine n (cancel_found req ind write att).1
  unfolding cancel_found
  cancel_found-Holds n (some (op, rest)) ind write att h r i w = drop_req-Holds n op rest att h r
  cancel_found-Holds n none (some (op, rest)) write att h r i w = drop_ind-Holds n op rest att h i
  cancel_found-Holds n none none (some (op, rest)) att h r i w = drop_write-Holds n op rest att h w
  cancel_found-Holds n none none none att h r i w = h

  cancel_queued-Holds :
      (n : ℕ) (id : ℕ) (att : Att) → Holds mine n att → Holds mine n (cancel_queued id att).1
  unfolding cancel_queued
  cancel_queued-Holds n id att h =
      cancel_found-Holds n _ _ _ att h (remove_op-OpTaken mine IsRequestOp id att.req_queue h.reqs)
        (remove_op-OpTaken mine IsIndicationOp id att.ind_queue h.inds)
        (remove_op-OpTaken mine IsWriteOp id att.write_queue h.writes)

  pub bt_att_cancel-Holds :
      (n : ℕ) (id : ℕ) (att : Att) → Holds mine n att → Holds mine n (bt_att_cancel id att).1
  unfolding bt_att_cancel
  bt_att_cancel-Holds n id att h = ground (
    arith,
    cancel_pending_req-Holds n att h,
    cancel_pending_ind-Holds n att h,
    cancel_queued-Holds n id att h,
  )

  pub bt_att_cancel_all-Holds :
      (n : ℕ) (att : Att) → Holds mine n att → Holds mine n (bt_att_cancel_all att)
  unfolding bt_att_cancel_all
  bt_att_cancel_all-Holds n att h =
      let l1 = destroy_ops att.req_queue att.log in
      let l2 = destroy_ops att.ind_queue l1 in
      cancel_pending_ind-Holds n _ (
        cancel_pending_req-Holds n _ (record {
          even = omega (
            arith,
            h.even,
            paid-destroy_ops mine att.req_queue att.log,
            paid-destroy_ops mine att.ind_queue l1,
            paid-destroy_ops mine att.write_queue l2,
          );
          reqs = tt;
          inds = tt;
          writes = tt;
          req = h.req;
          ind = h.ind;
        }))
