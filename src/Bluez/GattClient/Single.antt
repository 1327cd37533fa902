-- ===== src/Bluez/GattClient/Single.antt =====
-- Long writes do not interleave.
use minipro.Base.{
  ℕ, ◌+◌, ◌-◌, ◌%◌, ◌^◌, ◌≡◌, refl, ap, ◌⊎◌, inl, inr, Bool, true, false, not, ◌&&◌, ◌||◌, List, [],
  ◌∷◌, ◌==◌, ltb, leb, arith, if_lem, if◌then◌else◌, length, length-append,
}
use minipro.Bluez.Att.Opcodes.{error_rsp}
use minipro.Bluez.GattHelpers.{process_error}
use minipro.Bluez.GattClient.{LongWriteOp, Flight, prepares, executes, Client}
use minipro.Bluez.GattClient.LongWrite.{
  prep_write_req, prep_write_rsp, exec_write_req, exec_write_rsp, completed, prep_pdu, echoes,
  next_part, new_op, taken, refused, tell_written, complete_with, prep_with, start_queue,
  start_next_long_write, complete_write_long_op, handle_next_prep_write, part_written,
  prepare_write_cb, execute_write_cb, respond_to, respond_first, request_create,
  bt_gatt_client_write_long_value,
}
use minipro.Bluez.GattClient.Delivered.{at_rest}

-- One request of a long write is outstanding, or none is and none waits.
pub record IsSingle (c : Client) : Type 0 where
  pub session : c.reliable_write_session_id ≡ 0
  pub single :
      ((c.in_long_write ≡ true) × (length c.outstanding ≡ 1))
      ⊎ ((c.in_long_write ≡ false) × (length c.outstanding ≡ 0) × (length c.long_write_queue ≡ 0))

-- a long write is in progress, and its request has been answered
record IsBetween (c : Client) : Type 0 where
  session : c.reliable_write_session_id ≡ 0
  busy : c.in_long_write ≡ true
  none : length c.outstanding ≡ 0

abbrev KeepsSingle : (Client → Client) → Type 0
KeepsSingle go_on = (c : Client) → IsBetween c → IsSingle (go_on c)

taken-IsSingle :
    (opcode : ℕ) (pdu : List ℕ) (f : Flight) (c : Client)
    → IsBetween c
    → IsSingle (taken opcode pdu f c)
unfolding taken
taken-IsSingle opcode pdu f c between =
    let more = length-append c.outstanding (f ∷ []) in
    let none = between.none in
    record { session = between.session; single = inl (between.busy, omega arith) }

complete_with-IsSingle :
    (sends : ℕ → Bool) (go_on : Client → Client) (op : LongWriteOp) (success : Bool) (ecode : ℕ)
    (reliable_error : Bool)
    → KeepsSingle go_on
    → KeepsSingle (complete_with sends go_on op success ecode reliable_error)
unfolding complete_with tell_written refused
complete_with-IsSingle sends go_on op success ecode reliable_error keeps c between =
    if_lem IsSingle (sends c.attempts)
      (λ _.
        taken-IsSingle exec_write_req ((if success then 1 else 0) ∷ [])
          (executes (completed op success ecode reliable_error)) c between)
      (λ _.
        keeps (tell_written op false reliable_error ecode (refused c))
          (record { session = between.session; busy = between.busy; none = between.none }))

prep_with-IsSingle :
    (sends : ℕ → Bool) (go_on : Client → Client) (op : LongWriteOp)
    → KeepsSingle go_on
    → KeepsSingle (prep_with sends go_on op)
unfolding prep_with refused
prep_with-IsSingle sends go_on op keeps c between =
    if_lem IsSingle (sends c.attempts)
      (λ _. taken-IsSingle prep_write_req (prep_pdu op) (prepares op) c between)
      (λ _.
        complete_with-IsSingle sends go_on op false 0 false keeps (refused c)
          (record { session = between.session; busy = between.busy; none = between.none }))

start_queue-IsSingle :
    (sends : ℕ → Bool) (ops : List LongWriteOp) → KeepsSingle (start_queue sends ops)
unfolding start_queue
start_queue-IsSingle sends [] c between = record {
  session = between.session;
  single = inr (refl, between.none, refl);
}
start_queue-IsSingle sends (op ∷ ops) c between =
    prep_with-IsSingle sends (start_queue sends ops) op (start_queue-IsSingle sends ops)
      (record c { long_write_queue = ops })
      (record { session = between.session; busy = between.busy; none = between.none })

start_next-IsSingle : (sends : ℕ → Bool) → KeepsSingle (start_next_long_write sends)
unfolding start_next_long_write
start_next-IsSingle sends c = start_queue-IsSingle sends c.long_write_queue c

told-IsSingle :
    (sends : ℕ → Bool) (op : LongWriteOp) (success reliable_error : Bool) (ecode : ℕ) (c : Client)
    → IsBetween c
    → IsSingle (start_next_long_write sends (tell_written op success reliable_error ecode c))
unfolding tell_written
told-IsSingle sends op success reliable_error ecode c between =
    start_next-IsSingle sends (tell_written op success reliable_error ecode c)
      (record { session = between.session; busy = between.busy; none = between.none })

-- a response to the one request
respond_to-IsSingle :
    (sends : ℕ → Bool) (opcode : ℕ) (pdu : List ℕ) (f : Flight)
    → KeepsSingle (respond_to sends opcode pdu f)
unfolding respond_to prepare_write_cb part_written execute_write_cb complete_write_long_op
    handle_next_prep_write
respond_to-IsSingle sends opcode pdu (prepares op) c between =
    let ends : (success : Bool) (ecode : ℕ) (reliable_error : Bool)
        → IsSingle (complete_write_long_op sends op success ecode reliable_error c) =
      λ success ecode reliable_error.
        complete_with-IsSingle sends (start_next_long_write sends) op success ecode reliable_error
          (start_next-IsSingle sends) c between in
    let next = (op.index + op.cur_length) % 2 ^ 16 in
    if_lem IsSingle (opcode == error_rsp) (λ _. ends false (process_error pdu) false)
      (λ _.
        if_lem IsSingle (not (opcode == prep_write_rsp)) (λ _. ends false 0 false)
          (λ _.
            if_lem IsSingle (op.reliable && not (echoes pdu op)) (λ _. ends false 0 true)
              (λ _.
                if_lem IsSingle (next == length op.value) (λ _. ends true 0 false)
                  (λ _.
                    if_lem IsSingle (leb (c.mtu - 5) op.cur_length)
                      (λ _.
                        prep_with-IsSingle sends (start_next_long_write sends)
                          (next_part c.mtu next op) (start_next-IsSingle sends) c between)
                      (λ _. ends true 0 false)))))
respond_to-IsSingle sends opcode pdu (executes op) c between =
    if_lem (λ (r : Client). IsSingle (start_next_long_write sends r)) (opcode == error_rsp)
      (λ _. told-IsSingle sends op false op.reliable_error (process_error pdu) c between)
      (λ _.
        told-IsSingle sends op (op.success && (opcode == exec_write_rsp && length pdu == 0))
          op.reliable_error op.att_ecode c between)

-- What happens to a client: its user writes a value, or a response comes.
pub data Event : Type 0 where
  writes : (reliable : Bool) (value_handle offset : ℕ) (value : List ℕ) → Event
  responds : (opcode : ℕ) (pdu : List ℕ) → Event

unfoldable pub happen : (sends : ℕ → Bool) → Event → Client → Client
unfolding bt_gatt_client_write_long_value respond_first
happen sends (writes reliable value_handle offset value) c =
    (bt_gatt_client_write_long_value sends reliable value_handle offset value c).1
happen sends (responds opcode pdu) c = respond_first sends opcode pdu c.outstanding c

unfoldable pub run : (sends : ℕ → Bool) → List Event → Client → Client
unfolding happen
run sends [] c = c
run sends (event ∷ events) c = run sends events (happen sends event c)

pub respond_first-IsSingle :
    (sends : ℕ → Bool) (opcode : ℕ) (pdu : List ℕ) (fs : List Flight) (c : Client)
    → c.outstanding ≡ fs
    → IsSingle c
    → IsSingle (respond_first sends opcode pdu fs c)
unfolding respond_first
respond_first-IsSingle sends opcode pdu [] c e h = h
respond_first-IsSingle sends opcode pdu (f ∷ fs) c e h =
    let same = ap (length {A = Flight}) e in
    respond_to-IsSingle sends opcode pdu f (record c { outstanding = fs })
      (elim h.single [
        | inl (busy, one) ↦ record { session = h.session; busy = busy; none = omega arith }
        | inr (free, none, idle) ↦ absurd (omega arith)
      ])

pub write-IsSingle :
    (sends : ℕ → Bool) (reliable : Bool) (handle offset : ℕ) (value : List ℕ) (c : Client)
    → IsSingle c
    → IsSingle (bt_gatt_client_write_long_value sends reliable handle offset value c).1
unfolding bt_gatt_client_write_long_value request_create taken refused
write-IsSingle sends reliable handle offset value c h =
    let P : (ℕ × Client → Type 0) = λ r. IsSingle r.1 in
    let session = h.session in
    if_lem P (ltb 65535 (length value + offset)) (λ _. h)
      (λ _.
        if_lem P (length value == 0) (λ _. h)
          (λ _. elim h.single [
            | inl (busy, one) ↦
                if_lem P (c.in_long_write || ltb 0 c.reliable_write_session_id)
                  (λ _. record { session = session; single = inl (busy, one) })
                  (λ free. absurd (ground arith))
            | inr (free, none, idle) ↦
                if_lem P (c.in_long_write || ltb 0 c.reliable_write_session_id)
                  (λ busy. absurd (ground arith))
                  (λ _.
                    if_lem P (sends c.attempts)
                      (λ _.
                        let more =
                          length-append c.outstanding
                            (prepares (new_op reliable handle offset value c) ∷ []) in
                        record { session = session; single = inl (refl, omega arith) })
                      (λ _. record { session = session; single = inr (free, none, idle) }))
          ]))

run_lem :
    (sends : ℕ → Bool) (events : List Event) (c : Client)
    → IsSingle c
    → IsSingle (run sends events c)
unfolding run happen
run_lem sends [] c h = h
run_lem sends (writes reliable handle offset value ∷ events) c h =
    run_lem sends events _ (write-IsSingle sends reliable handle offset value c h)
run_lem sends (responds opcode pdu ∷ events) c h =
    run_lem sends events _ (respond_first-IsSingle sends opcode pdu c.outstanding c refl h)

-- However long writes and responses, with any opcode and bytes, follow each other at a client that was at
-- rest, and whichever requests the bearer refuses: as long as there is no reliable write session, at most
-- one request of one long write is outstanding, in_long_write says whether one is, and long writes
-- only wait while one is.
pub run-IsSingle :
    (sends : ℕ → Bool) (events : List Event) (c : Client) → IsSingle (run sends events (at_rest c))
run-IsSingle sends events c =
    run_lem sends events (at_rest c) (record { session = refl; single = inr (refl, refl, refl) })
