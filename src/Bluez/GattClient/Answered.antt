-- ===== src/Bluez/GattClient/Answered.antt =====
-- Every long write is answered.
use minipro.Base.{
  ℕ, zero, suc, ◌+◌, ◌-◌, ◌%◌, ◌^◌, ◌≤◌, ◌<◌, ◌≡◌, refl, subst, ◌∙◌, ap, Bool, true, false, not,
  ◌&&◌, List, [], ◌∷◌, ◌==◌, leb, arith, if_lem, length, All,
}
use minipro.Bluez.Att.Opcodes.{error_rsp}
use minipro.Bluez.GattHelpers.{process_error}
use minipro.Bluez.GattClient.{LongWriteOp, Flight, prepares, executes, Client}
use minipro.Bluez.GattClient.LongWrite.{
  prep_write_rsp, exec_write_rsp, tell_written, echoes, complete_write_long_op,
  handle_next_prep_write, next_part, part_written, prepare_write_cb, execute_write_cb, respond_to,
  respond_first, exchange, start_next_long_write,
}
use minipro.Bluez.GattClient.Accepted.{
  works, queue_work, all_of, one_of, calls_of, sent_of, waiting_of, IsInside, IsInsideFlight,
  IsSound, Continues, more_work, complete-Continues, prep-Continues, start_next-GoesOn,
}

module _ (id : ℕ) where
  -- A response leaves less work than there was with the request.
  abbrev Answers : (op : LongWriteOp) (before : ℕ) → Client → Client → Type 0
  Answers op before c r =
      Continues id (works c.outstanding + queue_work c.long_write_queue + before)
        (all_of id c + one_of id op) c.mtu r

  complete-Answers :
      (sends : ℕ → Bool) (op : LongWriteOp) (success : Bool) (ecode : ℕ) (reliable_error : Bool)
      (c : Client)
      → All IsInsideFlight c.outstanding
      → All IsInside c.long_write_queue
      → Answers op
          (length op.value - op.index + 1)
          c
          (complete_write_long_op sends op success ecode reliable_error c)
  unfolding complete_write_long_op
  complete-Answers sends op success ecode reliable_error c fs ops =
      more_work id _ _ _ _ c.mtu _
        (complete-Continues id sends (start_next_long_write sends) op success ecode reliable_error c
          fs ops (start_next-GoesOn id sends c ops))
        (omega arith) refl

  part-Answers :
      (sends : ℕ → Bool) (op : LongWriteOp) (c : Client)
      → 23 ≤ c.mtu
      → All IsInsideFlight c.outstanding
      → All IsInside c.long_write_queue
      → IsInside op
      → Answers op (length op.value - op.index + 1) c (part_written sends op c)
  unfolding part_written handle_next_prep_write
  part-Answers sends op c mtu fs ops inside =
      let next = (op.index + op.cur_length) % 2 ^ 16 in
      if_lem (Answers op (length op.value - op.index + 1) c) (next == length op.value)
        (λ _. complete-Answers sends op true 0 false c fs ops)
        (λ more.
          if_lem (Answers op (length op.value - op.index + 1) c) (leb (c.mtu - 5) op.cur_length)
            (λ full.
              let low = inside.0 in
              let high = inside.1 in
              let wraps : next ≡ op.index + op.cur_length = omega arith in
              let goes_on : next < length op.value = ground arith in
              let moves : op.index < next = ground arith in
              more_work id _ _ _ _ c.mtu _
                (prep-Continues id sends (start_next_long_write sends) (next_part c.mtu next op) c
                  fs ops (omega arith, high) (start_next-GoesOn id sends c ops))
                (omega arith) refl)
            (λ _. complete-Answers sends op true 0 false c fs ops))

  prepare-Answers :
      (sends : ℕ → Bool) (opcode : ℕ) (pdu : List ℕ) (op : LongWriteOp) (c : Client)
      → 23 ≤ c.mtu
      → All IsInsideFlight c.outstanding
      → All IsInside c.long_write_queue
      → IsInside op
      → Answers op (length op.value - op.index + 1) c (prepare_write_cb sends opcode pdu op c)
  unfolding prepare_write_cb
  prepare-Answers sends opcode pdu op c mtu fs ops inside =
      let P = Answers op (length op.value - op.index + 1) c in
      if_lem P (opcode == error_rsp)
        (λ _. complete-Answers sends op false (process_error pdu) false c fs ops)
        (λ _.
          if_lem P (not (opcode == prep_write_rsp))
            (λ _. complete-Answers sends op false 0 false c fs ops)
            (λ _.
              if_lem P (op.reliable && not (echoes pdu op))
                (λ _. complete-Answers sends op false 0 true c fs ops)
                (λ _. part-Answers sends op c mtu fs ops inside)))

  told_goes :
      (sends : ℕ → Bool) (op : LongWriteOp) (success reliable_error : Bool) (ecode : ℕ) (c : Client)
      → All IsInsideFlight c.outstanding
      → All IsInside c.long_write_queue
      → Continues id
          (works c.outstanding + queue_work c.long_write_queue + 0)
          (all_of id c + one_of id op)
          c.mtu
          (start_next_long_write sends (tell_written op success reliable_error ecode c))
  unfolding tell_written
  told_goes sends op success reliable_error ecode c fs ops =
      more_work id _ _ _ _ c.mtu _
        (start_next-GoesOn id sends c ops (tell_written op success reliable_error ecode c) fs refl
          refl)
        (omega arith) (omega arith)

  execute-Answers :
      (sends : ℕ → Bool) (opcode : ℕ) (pdu : List ℕ) (op : LongWriteOp) (c : Client)
      → All IsInsideFlight c.outstanding
      → All IsInside c.long_write_queue
      → Answers op 0 c (execute_write_cb sends opcode pdu op c)
  unfolding execute_write_cb tell_written
  execute-Answers sends opcode pdu op c fs ops =
      if_lem (λ (r : Client). Answers op 0 c (start_next_long_write sends r)) (opcode == error_rsp)
        (λ _. told_goes sends op false op.reliable_error (process_error pdu) c fs ops)
        (λ _.
          told_goes sends op (op.success && (opcode == exec_write_rsp && length pdu == 0))
            op.reliable_error op.att_ecode c fs ops)

  -- one response less to come
  respond-Continues :
      (sends : ℕ → Bool) (opcode : ℕ) (pdu : List ℕ) (f : Flight) (fs : List Flight) (c : Client)
      → 23 ≤ c.mtu
      → IsSound c
      → c.outstanding ≡ f ∷ fs
      → Continues id
          (works (f ∷ fs) + queue_work c.long_write_queue - 1)
          (all_of id c)
          c.mtu
          (respond_first sends opcode pdu (f ∷ fs) c)
  unfolding respond_first respond_to
  respond-Continues sends opcode pdu (prepares op) fs c mtu sound e =
      let flights = subst (All IsInsideFlight) e sound.flights in
      let same = ap (sent_of id) e in
      more_work id _ _ _ _ c.mtu _
        (prepare-Answers sends opcode pdu op (record c { outstanding = fs }) mtu flights.1
          sound.queued flights.0)
        (omega arith) (omega arith)
  respond-Continues sends opcode pdu (executes op) fs c mtu sound e =
      let flights = subst (All IsInsideFlight) e sound.flights in
      let same = ap (sent_of id) e in
      more_work id _ _ _ _ c.mtu _
        (execute-Answers sends opcode pdu op (record c { outstanding = fs }) flights.1 sound.queued)
        (omega arith) (omega arith)

  no_queue :
      (ops : List LongWriteOp) → length ops ≡ 0 → (queue_work ops ≡ 0) × (waiting_of id ops ≡ 0)
  no_queue [] e = (refl, refl)
  no_queue (op ∷ ops) e = absurd (omega arith)

  no_sent : (fs : List Flight) → length fs ≡ 0 → sent_of id fs ≡ 0
  no_sent [] e = refl
  no_sent (f ∷ fs) e = absurd (omega arith)

  length-works : (fs : List Flight) → length fs ≤ works fs
  length-works [] = omega arith
  length-works (prepares op ∷ fs) = let rest = length-works fs in omega arith
  length-works (executes op ∷ fs) = let rest = length-works fs in omega arith

  -- a round, also one in which nothing is asked
  pub round_lem :
      (sends : ℕ → Bool) (opcode : ℕ) (pdu : List ℕ) (fs : List Flight) (c : Client)
      → 23 ≤ c.mtu
      → IsSound c
      → c.outstanding ≡ fs
      → Continues id
          (works c.outstanding + queue_work c.long_write_queue - 1)
          (all_of id c)
          c.mtu
          (respond_first sends opcode pdu fs c)
  unfolding respond_first
  round_lem sends opcode pdu [] c mtu sound e =
      let none = ap (length {A = Flight}) e in
      let idle = no_queue c.long_write_queue (sound.waits none) in
      let nothing = ap works e in
      record { sound = sound; less = omega arith; all = refl; mtu_lem = refl }
  round_lem sends opcode pdu (f ∷ fs) c mtu sound e =
      let same = ap works e in
      more_work id _ _ _ _ c.mtu _ (respond-Continues sends opcode pdu f fs c mtu sound e)
        (omega arith) refl

-- A client that exchanges requests and responses with any server: after as many rounds as there is work,
-- no request is outstanding and none waits, and the long writes with an id have all been called back.
pub exchange_lem :
    (id : ℕ) (sends : ℕ → Bool) (server : List Flight → ℕ × List ℕ) (rounds : ℕ) (c : Client)
    → 23 ≤ c.mtu
    → IsSound c
    → works c.outstanding + queue_work c.long_write_queue ≤ rounds
    → let r = exchange sends server rounds c in
      (length r.outstanding ≡ 0)
      × (length r.long_write_queue ≡ 0)
      × (calls_of id r.told ≡ all_of id c)
unfolding exchange
exchange_lem id sends server zero c mtu sound enough =
    let few = length-works id c.outstanding in
    let out : length c.outstanding ≡ 0 = omega arith in
    let waits = sound.waits out in
    let none = no_sent id c.outstanding out in
    let idle = no_queue id c.long_write_queue waits in (out, waits, omega arith)
exchange_lem id sends server (suc rounds) c mtu sound enough =
    let rsp = server c.outstanding in
    let next = round_lem id sends rsp.0 rsp.1 c.outstanding c mtu sound refl in
    let less = next.less in
    let same = next.mtu_lem in
    let rest =
      exchange_lem id sends server rounds (respond_first sends rsp.0 rsp.1 c.outstanding c)
        (omega arith) next.sound (omega arith) in
    (rest.0, rest.1, rest.2 ∙ next.all)
