-- ===== src/Bluez/Att/Drain.antt =====
-- The writer gets rid of everything that may be sent, in order.
use minipro.Base.{
  ℕ, zero, suc, ◌<◌, ◌≡◌, refl, sym, subst, ◌∙◌, ap, Bool, true, false, not, Option, none, some,
  List, [], ◌∷◌, ◌++◌, append_assoc, append-nil, arith, if_lem, Option-cases, inl, inr, length, All,
}
use mathlib.Core.Path.{◌≡⟨◌⟩◌, ◌∎}
use minipro.Bluez.Att.{SendOp, Event, wrote, Att, logged, destroy_att_send_op}
use minipro.Bluez.Att.Calls.{can_send}
use minipro.Bluez.Att.Writer.{pick_next_send_op, written, can_write_data, on_writable}
use minipro.Bluez.Att.Life.{Below, bt_att_new}
use minipro.Bluez.Att.Reader.{Input, run}
use minipro.Bluez.Att.Run.{run_kinds}
use minipro.Bluez.Att.Holds.{IsRequestOp, IsIndicationOp, IsWriteOp}

-- the PDUs that were written, the first one first
abbrev pub sent : List Event → List (List ℕ)
sent [] = []
sent (wrote pdu ∷ log) = sent log ++ (pdu ∷ [])
sent (_ ∷ log) = sent log

-- the PDU at the head of a queue of operations of which one at a time is under way
abbrev pub first_free : Option SendOp → List SendOp → List (List ℕ)
first_free (some op) queue = []
first_free none [] = []
first_free none (op ∷ queue) = op.pdu ∷ []

abbrev pub pdus : List SendOp → List (List ℕ)
pdus [] = []
pdus (op ∷ ops) = op.pdu ∷ pdus ops

-- what goes out while nothing comes in: all writes, then a request and an indication, each unless one
-- is under way
abbrev pub outgoing : Att → List (List ℕ)
outgoing att =
    pdus att.write_queue
    ++ (first_free att.pending_req att.req_queue ++ first_free att.pending_ind att.ind_queue)

-- every operation is in a place for its kind
pub record HasKinds (att : Att) : Type 0 where
  pub reqs : All IsRequestOp att.req_queue
  pub inds : All IsIndicationOp att.ind_queue
  pub writes : All IsWriteOp att.write_queue

sent-destroy_op : (op : SendOp) (log : List Event) → sent (destroy_att_send_op op log) ≡ sent log
unfolding destroy_att_send_op
sent-destroy_op op log = ground arith

-- one call of the writer that writes the first of what goes out
record Steps (att next : Att) (pdu : List ℕ) : Type 0 where
  active : next.writer_active ≡ true
  rest : outgoing att ≡ pdu ∷ outgoing next
  out : sent next.log ≡ sent att.log ++ (pdu ∷ [])
  kinds : HasKinds next

written-Steps :
    (op : SendOp) (timer : Option ℕ) (att next : Att)
    → pick_next_send_op att ≡ some (op, next)
    → att.writer_active ≡ true
    → HasKinds att
    → Steps att (written op timer (logged (wrote op.pdu) next)) op.pdu
unfolding pick_next_send_op written
written-Steps op timer att next e on k =
    ground (arith, sent-destroy_op op (wrote op.pdu ∷ next.log))

quiet : (att : Att) → pick_next_send_op att ≡ none → (can_send att ≡ false) × (outgoing att ≡ [])
unfolding pick_next_send_op
quiet att e = ground arith

-- The file can be written k times, each write succeeds, and nothing else happens.
unfoldable pub pump : ℕ → (timers : ℕ → Option ℕ) → Att → Att
pump zero timers att = att
pump (suc k) timers att = pump k timers (on_writable true (timers k) [] att)

pump_inactive :
    (k : ℕ) (timers : ℕ → Option ℕ) (att : Att)
    → att.writer_active ≡ false
    → pump k timers att ≡ att
unfolding pump on_writable
pump_inactive zero timers att off = refl
pump_inactive (suc k) timers att off =
    let same : on_writable true (timers k) [] att ≡ att =
      if_lem (λ (a : Att). a ≡ att) (not att.writer_active) (λ _. refl) (λ on. ground arith) in
    ap (pump k timers) same ∙ pump_inactive k timers att off

-- what is left when the writer has stopped
record IsDrained (att last : Att) : Type 0 where
  off : last.writer_active ≡ false
  nothing : can_send last ≡ false
  all_sent : sent last.log ≡ sent att.log ++ outgoing att

writable_none :
    (timer : Option ℕ) (att : Att)
    → pick_next_send_op att ≡ none
    → att.writer_active ≡ true
    → on_writable true timer [] att ≡ record att { writer_active = false }
unfolding on_writable can_write_data
writable_none timer att e on = ground arith

writable_some :
    (timer : Option ℕ) (att : Att) (op : SendOp) (next : Att)
    → pick_next_send_op att ≡ some (op, next)
    → att.writer_active ≡ true
    → on_writable true timer [] att ≡ written op timer (logged (wrote op.pdu) next)
unfolding on_writable can_write_data
writable_some timer att op next e on = ground arith

sent_twice :
    {att next : Att} {pdu : List ℕ} (log : List Event)
    → Steps att next pdu
    → sent log ≡ sent next.log ++ outgoing next
    → sent log ≡ sent att.log ++ outgoing att
sent_twice {att} {next} {pdu} log step later =
    sent log
    ≡⟨ later ⟩ sent next.log ++ outgoing next
    ≡⟨ ap (λ (l : List (List ℕ)). l ++ outgoing next) step.out ⟩
      (sent att.log ++ (pdu ∷ [])) ++ outgoing next
    ≡⟨ append_assoc (sent att.log) (pdu ∷ []) (outgoing next) ⟩
      sent att.log ++ (pdu ∷ outgoing next)
    ≡⟨ ap (λ (l : List (List ℕ)). sent att.log ++ l) (sym step.rest) ⟩
      sent att.log ++ outgoing att ∎

pump-IsDrained :
    (k : ℕ) (timers : ℕ → Option ℕ) (att : Att)
    → length (outgoing att) < k
    → att.writer_active ≡ true
    → HasKinds att
    → IsDrained att (pump k timers att)
unfolding pump
pump-IsDrained zero timers att short on kinds = elim short [ ]
pump-IsDrained (suc k) timers att short on kinds = elim (Option-cases (pick_next_send_op att)) [
  | inl e ↦
      let (still, empty) = quiet att e in
      let idle = record att { writer_active = false } in
      let done : IsDrained att idle = record {
        off = refl;
        nothing = still;
        all_sent =
            sym (ap (λ (l : List (List ℕ)). sent att.log ++ l) empty ∙ append-nil (sent att.log));
      } in
      let stops =
        ap (pump k timers) (writable_none (timers k) att e on) ∙ pump_inactive k timers idle refl in
      subst (IsDrained att) (sym stops) done
  | inr ((op, next), e) ↦
      let after = written op (timers k) (logged (wrote op.pdu) next) in
      let step = written-Steps op (timers k) att next e on kinds in
      let fewer : length (outgoing after) < k = omega (arith, ap length step.rest) in
      let ih = pump-IsDrained k timers after fewer step.active step.kinds in
      let whole : IsDrained att (pump k timers after) = record {
        off = ih.off;
        nothing = ih.nothing;
        all_sent = sent_twice (pump k timers after).log step ih.all_sent;
      } in
      subst (IsDrained att) (sym (ap (pump k timers) (writable_some (timers k) att op next e on)))
        whole
]

-- When the file can be written k times, each write succeeds and nothing else happens, the active writer
-- of a bearer that any run has led to stops, with nothing left that may be sent, if k is above the
-- number of PDUs that may go out; and exactly these have gone out: all that waited to be written at
-- once, in order, then the first request and then the first indication, each unless one is under way.
pub drained :
    (below : Below) (ext_signed : Bool) (inputs : List Input) (k : ℕ) (timers : ℕ → Option ℕ)
    → let att = run inputs (bt_att_new below ext_signed) in
      att.writer_active ≡ true
      → length (outgoing att) < k
      → let last = pump k timers att in
        (last.writer_active ≡ false)
        × (can_send last ≡ false)
        × (sent last.log ≡ sent att.log ++ outgoing att)
drained below ext_signed inputs k timers on short =
    let att = run inputs (bt_att_new below ext_signed) in
    let kinds = run_kinds (λ _ _. true) below ext_signed inputs in
    let fits : HasKinds att = record { reqs = kinds.1.0; inds = kinds.2.0; writes = kinds.3 } in
    let end' = pump-IsDrained k timers att short on fits in (end'.off, end'.nothing, end'.all_sent)
