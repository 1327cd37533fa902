-- ===== src/Bluez/GattClient/Delivered.antt =====
-- A long write brings its value to the server.
use minipro.Base.{
  ℕ, zero, suc, ◌+◌, ◌-◌, ◌%◌, ◌^◌, ◌≤◌, ◌<◌, ◌≡◌, refl, sym, ap, ◌∙◌, min, Bool, true, false, not,
  ◌&&◌, List, [], ◌∷◌, ◌==◌, leb, ltb, arith, if_lem, length, take, drop, take-long,
}
use minipro.Bluez.GattClient.{LongWriteOp, prepares, Sent, Client}
use minipro.Bluez.GattClient.LongWrite.{
  prep_write_req, exec_write_req, prep_pdu, chunk, echoes, next_part, taken, complete_with,
  prep_with, complete_write_long_op, handle_next_prep_write, part_written, prepare_write_cb,
  respond_to, respond_first, exchange, new_op, request_id, request_create,
  bt_gatt_client_write_long_value,
}
use minipro.Bluez.GattClient.Accepted.{IsInside}
use minipro.Bluez.GattClient.Server.{
  Server, write_at, write_all, serve, serve_all, honest, write_at-write_at, serve-prep_pdu,
}
use minipro.Bluez.GattClient.Arrived.{
  always, echoes-prep_pdu, Arrives, idle, awaiting, success, execute-Arrives,
}

-- what the server has been sent when a part is on its way: the value up to the end of that part
record Written (s : Server) (value : List ℕ) (op : LongWriteOp) (c : Client) : Type 0 where
  written :
      write_all
        (serve_all op.value_handle c.sent s).prepared
        (serve_all op.value_handle c.sent s).value
      ≡ write_at op.offset (take (op.index + op.cur_length) op.value) value
  fits : op.offset ≤ length value

-- an operation that `bt_gatt_client_write_long_value` and `prepare_write_cb` make
record IsPart (mtu : ℕ) (op : LongWriteOp) : Type 0 where
  more : op.index < length op.value
  size : op.cur_length ≡ min (length op.value - op.index) (mtu - 5)
  handle : op.value_handle < 2 ^ 16
  end : op.offset + length op.value < 2 ^ 16

part-IsInside : (mtu : ℕ) (op : LongWriteOp) → IsPart mtu op → IsInside op
part-IsInside mtu op part =
    let more = part.more in let size = part.size in let end = part.end in (omega arith, omega arith)

-- the end of the write, when all parts are written
end-Arrives :
    (s : Server) (value : List ℕ) (rounds : ℕ) (op : LongWriteOp) (c : Client)
    → Written s value op c
    → op.index + op.cur_length ≡ length op.value
    → 1 ≤ rounds
    → Arrives op.value_handle s
        (write_at op.offset op.value value)
        (success op.id ∷ c.told)
        (exchange always honest rounds (complete_write_long_op always op true 0 false (idle c)))
unfolding complete_write_long_op complete_with taken serve_all serve
end-Arrives s value zero op c w e more = absurd (omega arith)
end-Arrives s value (suc rounds) op c w e more =
    let sent : Sent = record { opcode = exec_write_req; pdu = 1 ∷ [] } in
    execute-Arrives op.value_handle s (write_at op.offset op.value value) rounds op
      (record c { attempts = c.attempts + 1; sent = sent ∷ c.sent })
      (ap (λ (v : List ℕ). record { value = v; prepared = [] })
        (w.written
          ∙ ap (λ (v : List ℕ). write_at op.offset v value)
              (take-long (op.index + op.cur_length) op.value (omega arith))))

-- the client that sent this part
abbrev sends_part : LongWriteOp → Client → Client
sends_part op c = record c {
  attempts = c.attempts + 1;
  sent = record { opcode = prep_write_req; pdu = prep_pdu op } ∷ c.sent;
}

-- the first part is written to the value as it was
first-Written :
    (s : Server) (value : List ℕ) (op : LongWriteOp) (c : Client)
    → serve_all op.value_handle c.sent s ≡ record { value = value; prepared = [] }
    → op.offset ≤ length value
    → op.value_handle < 2 ^ 16
    → op.index ≡ 0
    → op.offset < 2 ^ 16
    → Written s value op (sends_part op c)
unfolding serve_all write_all
first-Written s value op c e fits small none end = record {
  written =
      ap (λ (t : Server). write_all t.prepared t.value)
        (serve-prep_pdu op (serve_all op.value_handle c.sent s) small (omega arith))
      ∙ ap
          (λ (t : Server).
            write_at (op.offset + op.index) (chunk op) (write_all t.prepared t.value))
          e
      ∙ ap (λ (n : ℕ). write_at (op.offset + n) (take op.cur_length (drop n op.value)) value) none
      ∙ ap (λ (n : ℕ). write_at n (take op.cur_length op.value) value) {x = op.offset + 0}
          {y = op.offset} (omega arith)
      ∙ ap (λ (n : ℕ). write_at op.offset (take n op.value) value) {x = op.cur_length}
          {y = op.index + op.cur_length} (omega arith);
  fits = fits;
}

-- the next part follows what was written
next-Written :
    (s : Server) (value : List ℕ) (op : LongWriteOp) (c : Client) (next : ℕ)
    → Written s value op c
    → IsPart c.mtu op
    → next ≡ op.index + op.cur_length
    → next < length op.value
    → Written s value (next_part c.mtu next op) (sends_part (next_part c.mtu next op) c)
unfolding serve_all write_all
next-Written s value op c next w part e goes =
    let op' = next_part c.mtu next op in
    let had = serve_all op.value_handle c.sent s in
    let end = part.end in
    record {
      written =
          ap (λ (t : Server). write_all t.prepared t.value)
            (serve-prep_pdu op' had part.handle (omega arith))
          ∙ ap (write_at (op.offset + next) (chunk op'))
              (w.written ∙ ap (λ (n : ℕ). write_at op.offset (take n op.value) value) (sym e))
          ∙ write_at-write_at op.offset next op'.cur_length op.value value w.fits (omega arith);
      fits = w.fits;
    }

part-Arrives :
    (s : Server) (value : List ℕ) (rounds : ℕ) (op : LongWriteOp) (c : Client)
    → 23 ≤ c.mtu
    → IsPart c.mtu op
    → Written s value op c
    → length op.value - op.index + 2 ≤ rounds
    → Arrives op.value_handle s
        (write_at op.offset op.value value)
        (success op.id ∷ c.told)
        (exchange always honest rounds (awaiting (prepares op) c))
unfolding exchange respond_first respond_to prepare_write_cb part_written handle_next_prep_write
    prep_with taken honest
part-Arrives s value zero op c mtu part w enough = absurd (omega arith)
part-Arrives s value (suc rounds) op c mtu part w enough =
    let echoed = echoes-prep_pdu op (part-IsInside c.mtu op part) part.handle part.end in
    let more = part.more in
    let size = part.size in
    let end = part.end in
    let next = (op.index + op.cur_length) % 2 ^ 16 in
    let wraps : next ≡ op.index + op.cur_length = omega arith in
    let P : (Client → Type 0) = λ r.
      Arrives op.value_handle s (write_at op.offset op.value value) (success op.id ∷ c.told)
        (exchange always honest rounds r) in
    if_lem P (op.reliable && not (echoes (prep_pdu op) op)) (λ wrong. absurd (ground arith))
      (λ _.
        if_lem P (next == length op.value)
          (λ last. end-Arrives s value rounds op c w (ground arith) (omega arith))
          (λ left.
            if_lem P (leb (c.mtu - 5) op.cur_length)
              (λ full.
                let goes : next < length op.value = ground arith in
                part-Arrives s value rounds (next_part c.mtu next op)
                  (sends_part (next_part c.mtu next op) c) mtu
                  (record { more = goes; size = refl; handle = part.handle; end = part.end })
                  (next-Written s value op c next w part wraps goes) (omega arith))
              (λ short. absurd (ground arith))))

-- a client with no long write and no reliable write
abbrev pub at_rest : Client → Client
at_rest c = record c {
  outstanding = [];
  long_write_queue = [];
  in_long_write = false;
  reliable_write_session_id = 0;
}

-- A long write, reliable or not, of one byte or more to a client at rest reaches a server that answers as
-- the protocol has it, if the bearer takes the requests, the value ends at 65535 at most, and its offset is
-- in the value of the attribute: after two responses more than there are bytes, whatever the MTU, from 23
-- on, the attribute has the bytes from the offset on and is else as it was, no part is left at the
-- server, and the callback has been called, once, with success.
pub long_write-delivers :
    (reliable : Bool) (handle offset : ℕ) (bytes value : List ℕ) (s : Server) (c : Client)
    (rounds : ℕ)
    → 23 ≤ c.mtu
    → 1 ≤ length bytes
    → length bytes + offset < 2 ^ 16
    → handle < 2 ^ 16
    → offset ≤ length value
    → serve_all handle c.sent s ≡ record { value = value; prepared = [] }
    → length bytes + 2 ≤ rounds
    → Arrives handle s (write_at offset bytes value) (success (request_id c) ∷ c.told) (
        exchange always honest rounds
          (bt_gatt_client_write_long_value always reliable handle offset bytes (at_rest c)).1)
unfolding bt_gatt_client_write_long_value taken request_create
long_write-delivers reliable handle offset bytes value s c rounds mtu some end small fits e enough =
    let op = new_op reliable handle offset bytes c in
    let busy : Client = record (request_create c) {
      in_long_write = true;
      reliable_write_session_id = 0;
    } in
    let P : (ℕ × Client → Type 0) = λ r.
      Arrives handle s (write_at offset bytes value) (success (request_id c) ∷ c.told)
        (exchange always honest rounds r.1) in
    if_lem P (ltb 65535 (length bytes + offset)) (λ high. absurd (ground arith))
      (λ _.
        if_lem P (length bytes == 0) (λ none. absurd (ground arith))
          (λ _.
            part-Arrives s value rounds op (sends_part op busy) mtu
              (record { more = omega arith; size = omega arith; handle = small; end = omega arith })
              (first-Written s value op busy e fits small refl (omega arith)) (omega arith)))
