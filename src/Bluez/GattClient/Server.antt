-- ===== src/Bluez/GattClient/Server.antt =====
-- What a server makes of the requests of a long write, as the clients of lib/bluez/gatt-client.c rely on
-- it: it keeps the parts that it gets, and writes them when it is told to.
use minipro.Base.{
  ℕ, ◌+◌, ◌^◌, ◌≤◌, ◌<◌, ◌≡◌, sym, ap, ap₂, ◌∙◌, List, [], ◌∷◌, ◌++◌, append_assoc, ◌==◌, arith,
  if◌then◌else◌, length, length-append, take, drop, drop-append, take-append, length-take,
  length-drop, take_add, drop_add,
}
use minipro.Bluez.GattHelpers.{get_le16}
use minipro.Bluez.GattClient.{LongWriteOp, Flight, prepares, executes, Sent}
use minipro.Bluez.GattClient.LongWrite.{
  prep_write_req, prep_write_rsp, exec_write_req, exec_write_rsp, prep_pdu, chunk,
}

-- the value of one attribute, and the parts that are to be written to it, the last one first
pub record Server : Type 0 where
  pub value : List ℕ
  pub prepared : List (ℕ × List ℕ)

-- bytes over those of a value from an offset on
abbrev pub write_at : (offset : ℕ) → List ℕ → List ℕ → List ℕ
write_at offset bytes value = take offset value ++ (bytes ++ drop (offset + length bytes) value)

unfoldable pub write_all : List (ℕ × List ℕ) → List ℕ → List ℕ
write_all [] value = value
write_all ((offset, bytes) ∷ older) value = write_at offset bytes (write_all older value)

-- The server gets one request, for the attribute with this handle or another.
unfoldable pub serve : (handle : ℕ) → Sent → Server → Server
unfolding write_all
serve handle sent s =
    if sent.opcode == prep_write_req
    then (if get_le16 sent.pdu == handle
        then record s { prepared = (get_le16 (drop 2 sent.pdu), drop 4 sent.pdu) ∷ s.prepared }
        else s)
    else if sent.opcode == exec_write_req
    then record {
      value =
          if get_le16 (sent.pdu ++ (0 ∷ [])) == 1 then write_all s.prepared s.value else s.value;
      prepared = [];
    }
    else s

unfoldable pub serve_all : (handle : ℕ) → List Sent → Server → Server
unfolding serve
serve_all handle [] s = s
serve_all handle (sent ∷ older) s = serve handle sent (serve_all handle older s)

-- It answers as the protocol has it.
unfoldable pub honest : List Flight → ℕ × List ℕ
honest [] = (0, [])
honest (prepares op ∷ fs) = (prep_write_rsp, prep_pdu op)
honest (executes op ∷ fs) = (exec_write_rsp, [])

write_at-append :
    (n : ℕ) (front part tail : List ℕ)
    → length front ≡ n
    → write_at n part (front ++ tail) ≡ front ++ (part ++ drop (length part) tail)
write_at-append n front part tail e =
    ap₂ (λ (xs ys : List ℕ). xs ++ (part ++ ys)) (take-append front tail n e)
      (drop_add n (length part) (front ++ tail)
        ∙ ap (drop (length part)) (drop-append front tail n e))

-- A part that follows what was written of a value makes it longer.
pub write_at-write_at :
    (offset j k : ℕ) (bytes value : List ℕ)
    → offset ≤ length value
    → j + k ≤ length bytes
    → write_at (offset + j) (take k (drop j bytes)) (write_at offset (take j bytes) value)
      ≡ write_at offset (take (j + k) bytes) value
write_at-write_at offset j k bytes value fits short =
    let before = take offset value in
    let old = take j bytes in
    let part = take k (drop j bytes) in
    let tail = drop (offset + j) value in
    let rest = length-drop j bytes (omega arith) in
    let old_length : length old ≡ j = length-take j bytes (omega arith) in
    let part_length : length part ≡ k = length-take k (drop j bytes) (omega arith) in
    let whole_length : length (take (j + k) bytes) ≡ j + k = length-take (j + k) bytes short in
    let front_length : length (before ++ old) ≡ offset + j =
      length-append before old ∙ omega (arith, length-take offset value fits) in
    let inner : write_at offset old value ≡ (before ++ old) ++ tail =
      ap (λ (n : ℕ). before ++ (old ++ drop (offset + n) value)) old_length
      ∙ sym (append_assoc before old tail) in
    let left : write_at (offset + j) part (write_at offset old value)
        ≡ (before ++ old) ++ (part ++ drop k tail) =
      ap (write_at (offset + j) part) inner
      ∙ write_at-append (offset + j) (before ++ old) part tail front_length
      ∙ ap (λ (n : ℕ). (before ++ old) ++ (part ++ drop n tail)) part_length in
    let right : write_at offset (take (j + k) bytes) value
        ≡ before ++ ((old ++ part) ++ drop k tail) =
      ap₂ (λ (xs ys : List ℕ). before ++ (xs ++ ys)) (take_add j k bytes)
        (ap (λ (n : ℕ). drop n value) (omega arith) ∙ drop_add (offset + j) k value) in
    left
    ∙ append_assoc before old (part ++ drop k tail)
    ∙ ap (λ (xs : List ℕ). before ++ xs) (sym (append_assoc old part (drop k tail)))
    ∙ sym right

-- the request for a part, as the server reads it
pub serve-prep_pdu :
    (op : LongWriteOp) (s : Server)
    → op.value_handle < 2 ^ 16
    → op.offset + op.index < 2 ^ 16
    → serve op.value_handle (record { opcode = prep_write_req; pdu = prep_pdu op }) s
      ≡ record s { prepared = (op.offset + op.index, chunk op) ∷ s.prepared }
unfolding serve
serve-prep_pdu op s handle offset = ground arith
