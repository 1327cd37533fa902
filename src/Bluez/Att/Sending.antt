-- ===== src/Bluez/Att/Sending.antt =====
-- Sending an operation keeps the balance of destructors.
use minipro.Base.{ℕ, ◌+◌, ◌≡◌, subst, Bool, true, false, not, arith, ◌==◌, if_lem}
use minipro.Bluez.Att.{
  SendOp, Event, accepted, Att, logged, Send, Made, refused, overrun, made, create_att_send_op,
}
use minipro.Bluez.Att.Calls.{wakeup_writer, enqueue, this_id, send_made, bt_att_send}
use minipro.Bluez.Att.Life.{granted_if}
use minipro.Bluez.Att.Balance.{wakeup_writer-Holds, enqueue-Holds}
use minipro.Bluez.Att.Holds.{Holds, one, owed_op}

pub this_id_pos : (n : ℕ) → (this_id n == 0) ≡ false
this_id_pos n = ground arith

module _ (mine : ℕ → ℕ → Bool) where
  -- what an operation owes is what the call was given
  abbrev Owes : Send → Made SendOp → Type 0
  Owes s refused = Unit {0}
  Owes s overrun = Unit {0}
  Owes s (made op) = owed_op mine op ≡ one mine s.destroy s.user_data

  create-Owes : (att : Att) (s : Send) → Owes s (create_att_send_op att s)
  unfolding create_att_send_op
  create-Owes att s = ground arith

  -- The log can be written first.
  logged-wakeup_writer :
      (ev : Event) (att : Att) → wakeup_writer (logged ev att) ≡ logged ev (wakeup_writer att)
  unfolding wakeup_writer
  logged-wakeup_writer ev att = ground arith

  logged-enqueue :
      (ev : Event) (op : SendOp) (att : Att)
      → enqueue op (logged ev att) ≡ logged ev (enqueue op att)
  unfolding enqueue
  logged-enqueue ev op att = ground arith

  -- an operation that was made goes into its queue
  queued-Holds :
      (n : ℕ) (s : Send) (op : SendOp) (att : Att)
      → Holds mine n att
      → owed_op mine op ≡ one mine s.destroy s.user_data
      → Holds mine n (logged (accepted s.destroy s.user_data) (wakeup_writer (enqueue op att)))
  queued-Holds n s op att h o =
      let ev = accepted s.destroy s.user_data in
      let first : Holds mine (n + owed_op mine op) (logged ev att) = record {
        even = omega (arith, h.even);
        reqs = h.reqs;
        inds = h.inds;
        writes = h.writes;
        req = h.req;
        ind = h.ind;
      } in
      let last = wakeup_writer-Holds mine n _ (enqueue-Holds mine n op (logged ev att) first) in
      subst (Holds mine n) (logged-wakeup_writer ev (enqueue op att))
        (subst (λ a. Holds mine n (wakeup_writer a)) (logged-enqueue ev op att) last)

  send_made-Holds :
      (n : ℕ) (s : Send) (m : Made SendOp) (entry_mem : Bool) (att : Att)
      → Holds mine n att
      → Owes s m
      → Holds mine n (granted_if s.destroy s.user_data (send_made m entry_mem att))
  unfolding send_made
  send_made-Holds n s refused entry_mem att h o = h
  send_made-Holds n s overrun entry_mem att h o = record {
    even = h.even;
    reqs = h.reqs;
    inds = h.inds;
    writes = h.writes;
    req = h.req;
    ind = h.ind;
  }
  send_made-Holds n s (made op) false att h o = record {
    even = h.even;
    reqs = h.reqs;
    inds = h.inds;
    writes = h.writes;
    req = h.req;
    ind = h.ind;
  }
  send_made-Holds n s (made op) true att h o = rw (this_id_pos att.next_send_id) (
      queued-Holds n s _ _
        (record {
          even = h.even;
          reqs = h.reqs;
          inds = h.inds;
          writes = h.writes;
          req = h.req;
          ind = h.ind;
        })
        o)

  pub bt_att_send-Holds :
      (n : ℕ) (s : Send) (att : Att)
      → Holds mine n att
      → Holds mine n (granted_if s.destroy s.user_data (bt_att_send s att))
  unfolding bt_att_send
  bt_att_send-Holds n s att h =
      if_lem (λ r. Holds mine n (granted_if s.destroy s.user_data r)) (not att.io) (λ _. h)
        (λ _. send_made-Holds n s _ s.mem.entry_mem att h (create-Owes att s))
