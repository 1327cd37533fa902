-- ===== src/Bluez/Att/Holds.antt =====
-- The balance of destructors: those that were called, those that are held and those that were taken
-- over; and the kinds of operations that each queue holds.
use minipro.Base.{
  ℕ, ◌+◌, ◌≡◌, refl, Bool, false, Option, none, some, List, [], ◌∷◌, ◌++◌, arith, ◌==◌,
  if◌then◌else◌, All, Bool-cases, inl, inr,
}
use minipro.Bluez.Att.{
  SendOp, Notify, Disconn, Event, destroyed, accepted, Att, call_destroy, destroy_att_send_op,
  expects_answer,
}
use minipro.Bluez.Att.Opcodes.{request, indication}
use minipro.Bluez.Att.Calls.{
  remove_op, remove_notify, remove_disconn, destroy_ops, destroy_notifies, destroy_disconns,
}

abbrev pub IsRequestOp : SendOp → Type 0
IsRequestOp op = op.op_type ≡ request

abbrev pub IsIndicationOp : SendOp → Type 0
IsIndicationOp op = op.op_type ≡ indication

abbrev pub IsWriteOp : SendOp → Type 0
IsWriteOp op = expects_answer op.op_type ≡ false

abbrev pub Held : (SendOp → Type 0) → Option SendOp → Type 0
Held P none = Unit {0}
Held P (some op) = P op

module _ (mine : ℕ → ℕ → Bool) where
  -- 1 for a destructor that is counted, with its data
  abbrev pub one : (destroy user_data : ℕ) → ℕ
  one destroy user_data = if destroy == 0 then 0 else if mine destroy user_data then 1 else 0

  abbrev pub owed_op : SendOp → ℕ
  owed_op op = one op.destroy op.user_data

  abbrev pub owed_ops : List SendOp → ℕ
  owed_ops [] = 0
  owed_ops (op ∷ ops) = owed_op op + owed_ops ops

  abbrev pub owed_pending : Option SendOp → ℕ
  owed_pending none = 0
  owed_pending (some op) = owed_op op

  abbrev pub owed_notifies : List Notify → ℕ
  owed_notifies [] = 0
  owed_notifies (n ∷ ns) = one n.destroy n.user_data + owed_notifies ns

  abbrev pub owed_disconns : List Disconn → ℕ
  owed_disconns [] = 0
  owed_disconns (d ∷ ds) = one d.destroy d.user_data + owed_disconns ds

  -- the destructors that a bearer holds
  abbrev pub owed : Att → ℕ
  owed att =
      owed_ops att.req_queue
      + owed_ops att.ind_queue
      + owed_ops att.write_queue
      + owed_pending att.pending_req
      + owed_pending att.pending_ind
      + owed_notifies att.notify_list
      + owed_disconns att.disconn_list
      + one att.timeout_destroy att.timeout_data

  -- those that were called, and those that were taken over
  abbrev pub paid : List Event → ℕ
  paid [] = 0
  paid (destroyed destroy user_data ∷ log) = one destroy user_data + paid log
  paid (_ ∷ log) = paid log

  abbrev pub granted : List Event → ℕ
  granted [] = 0
  granted (accepted destroy user_data ∷ log) = one destroy user_data + granted log
  granted (_ ∷ log) = granted log

  -- The books are even but for `n` destructors that are held outside the bearer, and every operation
  -- is in a place for its kind.
  pub record Holds (n : ℕ) (att : Att) : Type 0 where
    pub even : paid att.log + owed att + n ≡ granted att.log
    pub reqs : All IsRequestOp att.req_queue
    pub inds : All IsIndicationOp att.ind_queue
    pub writes : All IsWriteOp att.write_queue
    pub req : Held IsRequestOp att.pending_req
    pub ind : Held IsIndicationOp att.pending_ind

  pub paid-call_destroy :
      (destroy user_data : ℕ) (log : List Event)
      → (paid (call_destroy destroy user_data log) ≡ one destroy user_data + paid log)
        × (granted (call_destroy destroy user_data log) ≡ granted log)
  paid-call_destroy destroy user_data log = (ground arith, ground arith)

  pub paid-destroy_op :
      (op : SendOp) (log : List Event)
      → (paid (destroy_att_send_op op log) ≡ owed_op op + paid log)
        × (granted (destroy_att_send_op op log) ≡ granted log)
  unfolding destroy_att_send_op
  paid-destroy_op op log = elim (Bool-cases (op.timeout_id == 0)) [
    | inl e ↦ rw e (paid-call_destroy op.destroy op.user_data log)
    | inr e ↦ rw e (paid-call_destroy op.destroy op.user_data _)
  ]

  pub paid-destroy_ops :
      (ops : List SendOp) (log : List Event)
      → (paid (destroy_ops ops log) ≡ owed_ops ops + paid log)
        × (granted (destroy_ops ops log) ≡ granted log)
  unfolding destroy_ops
  paid-destroy_ops [] log = (omega arith, refl)
  paid-destroy_ops (op ∷ ops) log =
      omega (arith, paid-destroy_ops ops (destroy_att_send_op op log), paid-destroy_op op log)

  pub paid-destroy_notifies :
      (ns : List Notify) (log : List Event)
      → (paid (destroy_notifies ns log) ≡ owed_notifies ns + paid log)
        × (granted (destroy_notifies ns log) ≡ granted log)
  unfolding destroy_notifies
  paid-destroy_notifies [] log = (omega arith, refl)
  paid-destroy_notifies (n ∷ ns) log = omega (
    arith,
    paid-destroy_notifies ns (call_destroy n.destroy n.user_data log),
    paid-call_destroy n.destroy n.user_data log,
  )

  pub paid-destroy_disconns :
      (ds : List Disconn) (log : List Event)
      → (paid (destroy_disconns ds log) ≡ owed_disconns ds + paid log)
        × (granted (destroy_disconns ds log) ≡ granted log)
  unfolding destroy_disconns
  paid-destroy_disconns [] log = (omega arith, refl)
  paid-destroy_disconns (d ∷ ds) log = omega (
    arith,
    paid-destroy_disconns ds (call_destroy d.destroy d.user_data log),
    paid-call_destroy d.destroy d.user_data log,
  )

  pub owed_ops-append : (xs ys : List SendOp) → owed_ops (xs ++ ys) ≡ owed_ops xs + owed_ops ys
  owed_ops-append [] ys = omega arith
  owed_ops-append (x ∷ xs) ys = omega (arith, owed_ops-append xs ys)

  pub owed_notifies-append :
      (xs ys : List Notify) → owed_notifies (xs ++ ys) ≡ owed_notifies xs + owed_notifies ys
  owed_notifies-append [] ys = omega arith
  owed_notifies-append (x ∷ xs) ys = omega (arith, owed_notifies-append xs ys)

  pub owed_disconns-append :
      (xs ys : List Disconn) → owed_disconns (xs ++ ys) ≡ owed_disconns xs + owed_disconns ys
  owed_disconns-append [] ys = omega arith
  owed_disconns-append (x ∷ xs) ys = omega (arith, owed_disconns-append xs ys)

  -- what was taken out of a queue, with the rest, is what there was
  abbrev pub OpTaken : (SendOp → Type 0) → List SendOp → Option (SendOp × List SendOp) → Type 0
  OpTaken P ops none = Unit {0}
  OpTaken P ops (some (op, rest)) = (owed_ops ops ≡ owed_op op + owed_ops rest) × All P rest

  OpTaken-cons :
      (P : SendOp → Type 0) (op : SendOp) (ops : List SendOp) (o : Option (SendOp × List SendOp))
      → P op
      → OpTaken P ops o
      → OpTaken P (op ∷ ops) (elim o [ none ↦ none | some (q, rest) ↦ some (q, op ∷ rest) ])
  OpTaken-cons P op ops none p t = tt
  OpTaken-cons P op ops (some (q, rest)) p t = (omega arith, (p, t.1))

  pub remove_op-OpTaken :
      (P : SendOp → Type 0) (id : ℕ) (ops : List SendOp)
      → All P ops
      → OpTaken P ops (remove_op id ops)
  unfolding remove_op
  remove_op-OpTaken P id [] h = tt
  remove_op-OpTaken P id (op ∷ ops) h =
      let later = OpTaken-cons P op ops (remove_op id ops) h.0 (remove_op-OpTaken P id ops h.1) in
      elim (Bool-cases (op.id == id)) [ inl e ↦ rw e (refl, h.1) | inr e ↦ rw e later ]

  abbrev pub NotifyTaken : List Notify → Option (Notify × List Notify) → Type 0
  NotifyTaken ns none = Unit {0}
  NotifyTaken ns (some (n, rest)) =
      owed_notifies ns ≡ one n.destroy n.user_data + owed_notifies rest

  NotifyTaken-cons :
      (n : Notify) (ns : List Notify) (o : Option (Notify × List Notify))
      → NotifyTaken ns o
      → NotifyTaken (n ∷ ns) (elim o [ none ↦ none | some (m, rest) ↦ some (m, n ∷ rest) ])
  NotifyTaken-cons n ns none t = tt
  NotifyTaken-cons n ns (some (m, rest)) t = omega arith

  pub remove_notify-NotifyTaken : (id : ℕ) (ns : List Notify) → NotifyTaken ns (remove_notify id ns)
  unfolding remove_notify
  remove_notify-NotifyTaken id [] = tt
  remove_notify-NotifyTaken id (n ∷ ns) =
      let later = NotifyTaken-cons n ns (remove_notify id ns) (remove_notify-NotifyTaken id ns) in
      elim (Bool-cases (n.id == id)) [ inl e ↦ rw e refl | inr e ↦ rw e later ]

  abbrev pub DisconnTaken : List Disconn → Option (Disconn × List Disconn) → Type 0
  DisconnTaken ds none = Unit {0}
  DisconnTaken ds (some (d, rest)) =
      owed_disconns ds ≡ one d.destroy d.user_data + owed_disconns rest

  DisconnTaken-cons :
      (d : Disconn) (ds : List Disconn) (o : Option (Disconn × List Disconn))
      → DisconnTaken ds o
      → DisconnTaken (d ∷ ds) (elim o [ none ↦ none | some (m, rest) ↦ some (m, d ∷ rest) ])
  DisconnTaken-cons d ds none t = tt
  DisconnTaken-cons d ds (some (m, rest)) t = omega arith

  pub remove_disconn-DisconnTaken :
      (id : ℕ) (ds : List Disconn) → DisconnTaken ds (remove_disconn id ds)
  unfolding remove_disconn
  remove_disconn-DisconnTaken id [] = tt
  remove_disconn-DisconnTaken id (d ∷ ds) =
      let later =
        DisconnTaken-cons d ds (remove_disconn id ds) (remove_disconn-DisconnTaken id ds) in
      elim (Bool-cases (d.id == id)) [ inl e ↦ rw e refl | inr e ↦ rw e later ]
