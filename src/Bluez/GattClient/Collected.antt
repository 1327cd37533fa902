-- ===== src/Bluez/GattClient/Collected.antt =====
-- A long read ends, with the value that the server has.
use minipro.Base.{
  ℕ, zero, suc, ◌+◌, ◌-◌, ◌≤◌, ◌<◌, ◌≡◌, refl, sym, subst, ap, ap₂, ◌∙◌, min, Bool, true, Option,
  some, List, ◌++◌, append_assoc, append-nil, ◌==◌, ltb, leb, arith, if_lem, length, take, drop,
  length-append, length-take, length-drop, take-long, drop_add, take-drop_rest, length-take-min,
  drop-long,
}
use minipro.Bluez.GattHelpers.{get_le16}
use minipro.Bluez.GattHelpers.Discover.{Next, asks, completes, faults, Luck}
use minipro.Bluez.GattClient.LongRead.{
  ReadLongOp, read_blob_rsp, chunk_len, append_chunk, blob_pdu, chunk_read, read_long_cb, read_long,
}

-- what is appended of a response: what fits in 512 bytes
abbrev fitting : ReadLongOp → List ℕ → ℕ
fitting op bytes = min (length bytes) (512 - op.offset)

abbrev appended : ReadLongOp → List ℕ → ReadLongOp
appended op bytes = record op {
  offset = op.offset + fitting op bytes;
  value = op.value ++ take (fitting op bytes) bytes;
}

append_chunk_lem :
    (op : ReadLongOp) (bytes : List ℕ)
    → op.offset ≤ 512
    → append_chunk op bytes ≡ some (appended op bytes)
unfolding append_chunk
append_chunk_lem op bytes low =
    let len : chunk_len op.offset (length bytes) ≡ fitting op bytes = ground arith in
    rw len (
      if_lem (λ (o : Option ReadLongOp). o ≡ some (appended op bytes))
        (ltb (length bytes) (fitting op bytes)) (λ long. absurd (ground arith))
        (λ _.
          ap
            (λ (n : ℕ).
              some (record op { offset = n; value = op.value ++ take (fitting op bytes) bytes }))
            (omega arith)))

-- A request that is sent asks for what is further on, and what is kept fits.
Moves : ReadLongOp → Next × ReadLongOp → Type 0
Moves op (asks opcode pdu, op') =
    (op.offset < op'.offset)
    × (op'.offset ≤ 512)
    × (length op'.value + op.offset ≡ length op.value + op'.offset)
Moves op (completes success ecode, op') = length op'.value ≤ length op.value + (512 - op.offset)
Moves op (faults, op') = ⊥

callback-Moves :
    (luck : Luck) (mtu opcode : ℕ) (pdu : List ℕ) (op : ReadLongOp)
    → 23 ≤ mtu
    → op.offset ≤ 512
    → Moves op (read_long_cb luck mtu opcode pdu op)
unfolding Moves read_long_cb chunk_read
callback-Moves luck mtu opcode pdu op large low =
    let size : length (take (fitting op pdu) pdu) ≡ fitting op pdu =
      length-take (fitting op pdu) pdu (omega arith) in
    let more = length-append op.value (take (fitting op pdu) pdu) in
    rw (append_chunk_lem op pdu low) (ground arith)

-- how a long read goes on after a callback that moves
go_on :
    (op : ReadLongOp) (rounds : ℕ) (rec : List ℕ → ReadLongOp → Option (Next × ReadLongOp))
    (r : Next × ReadLongOp)
    → 512 - op.offset < suc rounds
    → ((pdu : List ℕ) (next : ReadLongOp)
        → next.offset ≤ 512
        → 512 - next.offset < rounds
        → (success : Bool) × (ecode : ℕ) × (last : ReadLongOp) × (rec pdu next
            ≡ some (completes success ecode, last))
          × (length last.value ≤ length next.value + (512 - next.offset)))
    → Moves op r
    → (success : Bool) × (ecode : ℕ) × (last : ReadLongOp) × (elim r.0 [
      | asks opcode pdu ↦ rec pdu r.1
      | completes success' ecode' ↦ some (completes success' ecode', r.1)
      | faults ↦ some (faults, r.1)
    ]
        ≡ some (completes success ecode, last))
      × (length last.value ≤ length op.value + (512 - op.offset))
unfolding Moves
go_on op rounds rec (asks opcode pdu, next) short ih moves =
    let (success, ecode, last, e, fits) = ih pdu next moves.1 (omega arith) in
    (success, ecode, last, e, omega arith)
go_on op rounds rec (completes success ecode, next) short ih moves =
    (success, ecode, next, refl, moves)
go_on op rounds rec (faults, next) short ih moves = elim moves [ ]

-- Whatever a server answers, and whether or not there is memory or a request can be sent, a long read from
-- an offset up to 512 ends with a call of its callback, after as many responses at most as there are bytes
-- from there to 512 and one more, and the bytes that it got fit there; it never reads behind a response.
pub read_long_ends :
    (rounds : ℕ) (luck : ℕ → Luck) (mtu : ℕ) (server : ℕ → List ℕ → ℕ × List ℕ) (pdu : List ℕ)
    (op : ReadLongOp)
    → 23 ≤ mtu
    → op.offset ≤ 512
    → 512 - op.offset < rounds
    → (success : Bool) × (ecode : ℕ) × (last : ReadLongOp) × (read_long rounds luck mtu server pdu
          op
        ≡ some (completes success ecode, last))
      × (length last.value ≤ length op.value + (512 - op.offset))
unfolding read_long
read_long_ends zero luck mtu server pdu op large low short = absurd (omega arith)
read_long_ends (suc rounds) luck mtu server pdu op large low short =
    let rsp = server rounds pdu in
    go_on op rounds (read_long rounds luck mtu server)
      (read_long_cb (luck rounds) mtu rsp.0 rsp.1 op) short
      (λ p next low' short'. read_long_ends rounds luck mtu server p next large low' short')
      (callback-Moves (luck rounds) mtu rsp.0 rsp.1 op large low)

-- memory for every part, and a bearer that takes every request
abbrev pub lucky : ℕ → Luck
lucky round = record { mem = true; sends = true }

-- a server that has a value, and answers with as much of it as a PDU holds
abbrev pub serves : (mtu : ℕ) (value : List ℕ) → ℕ → List ℕ → ℕ × List ℕ
serves mtu value round pdu = (read_blob_rsp, take (mtu - 1) (drop (get_le16 (drop 2 pdu)) value))

-- what an answer adds, and what is left after it
kept :
    (m : ℕ) (value : List ℕ) (op : ReadLongOp)
    → length value ≤ 512
    → op.offset ≤ length value
    → let bytes = take m (drop op.offset value) in
      (appended op bytes).value ++ drop (appended op bytes).offset value
      ≡ op.value ++ drop op.offset value
kept m value op small low =
    let left = drop op.offset value in
    let bytes = take m left in
    let size = length-drop op.offset value low in
    let part = length-take-min m left in
    let fits : fitting op bytes ≡ length bytes = omega arith in
    ap (λ (n : ℕ). (op.value ++ take n bytes) ++ drop (op.offset + n) value) fits
    ∙ ap₂ (λ (xs ys : List ℕ). (op.value ++ xs) ++ ys)
        (take-long (length bytes) bytes (omega arith)) (drop_add op.offset (length bytes) value)
    ∙ append_assoc op.value bytes (drop (length bytes) left)
    ∙ ap (λ (xs : List ℕ). op.value ++ xs) (take-drop_rest m left)

-- nothing is left behind the end
all_kept :
    (front value all : List ℕ) (n : ℕ)
    → length value ≤ n
    → front ++ drop n value ≡ all
    → front ≡ all
all_kept front value all n past e =
    sym (append-nil front) ∙ ap (λ (xs : List ℕ). front ++ xs) (sym (drop-long n value past)) ∙ e

-- A long read of a value of up to 512 bytes from an offset in it gets the bytes from the offset to the end,
-- whatever the MTU, from 23 on: with memory, a bearer that takes the requests and a server that answers
-- as the protocol has it, the callback is called with success and with exactly those bytes.
pub read_long-collects :
    (rounds mtu : ℕ) (value : List ℕ) (op : ReadLongOp)
    → 23 ≤ mtu
    → length value ≤ 512
    → op.offset ≤ length value
    → length value - op.offset < rounds
    → (last : ReadLongOp) × (read_long rounds lucky mtu (serves mtu value) (blob_pdu op) op
        ≡ some (completes true 0, last))
      × (last.value ≡ op.value ++ drop op.offset value)
unfolding read_long read_long_cb chunk_read
read_long-collects zero mtu value op large small low short = absurd (omega arith)
read_long-collects (suc rounds) mtu value op large small low short =
    let left = drop op.offset value in
    let bytes = take (mtu - 1) left in
    let size = length-drop op.offset value low in
    let part = length-take-min (mtu - 1) left in
    let asked : get_le16 (drop 2 (blob_pdu op)) ≡ op.offset = omega arith in
    let keep = kept (mtu - 1) value op small low in
    let P : (Next × ReadLongOp → Type 0) = λ r.
      (last : ReadLongOp) × (elim r.0 [
        | asks opcode pdu ↦ read_long rounds lucky mtu (serves mtu value) pdu r.1
        | completes success ecode ↦ some (completes success ecode, r.1)
        | faults ↦ some (faults, r.1)
      ]
        ≡ some (completes true 0, last))
      × (last.value ≡ op.value ++ left) in
    subst
      (λ (n : ℕ).
        P (read_long_cb (lucky rounds) mtu read_blob_rsp (take (mtu - 1) (drop n value)) op))
      (sym asked)
      (if_lem P (length bytes == 0)
        (λ none.
          (op, refl, all_kept op.value value (op.value ++ left) op.offset (ground arith) refl))
        (λ some_bytes.
          subst (λ (o : Option ReadLongOp). P (chunk_read (lucky rounds) mtu (length bytes) o op))
            (sym (append_chunk_lem op bytes (omega arith)))
            (if_lem P (leb 512 (appended op bytes).offset)
              (λ full. (
                appended op bytes,
                refl,
                all_kept (appended op bytes).value value (op.value ++ left)
                    (appended op bytes).offset (ground arith) keep,
              ))
              (λ _.
                if_lem P (leb (mtu - 1) (length bytes))
                  (λ whole.
                    let (last, e, v) =
                      read_long-collects rounds mtu value (appended op bytes) large small
                        (ground arith) (ground arith) in
                    (last, e, ◌∙◌ {a = last.value} v keep))
                  (λ short. (
                    appended op bytes,
                    refl,
                    all_kept (appended op bytes).value value (op.value ++ left)
                        (appended op bytes).offset (ground arith) keep,
                  ))))))
