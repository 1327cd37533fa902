-- ===== src/Bluez/GattClient/Accepted.antt =====
-- What the functions of a long write leave: a bound on the work that is left, the long writes with each id,
-- and operations that stay in their value.
use minipro.Base.{
  ℕ, ◌+◌, ◌-◌, ◌^◌, ◌≤◌, ◌<◌, ◌≡◌, refl, sym, subst, ◌∙◌, Bool, false, List, [], ◌∷◌, ◌++◌, arith,
  if_lem, if◌then◌else◌, ◌==◌, length, length-append, All, All-append,
}
use minipro.Bluez.GattClient.{LongWriteOp, Flight, prepares, executes, Told, Client}
use minipro.Bluez.GattClient.LongWrite.{
  taken, refused, tell_written, prep_pdu, completed, exec_write_req, complete_with, prep_with,
  prep_write_req, start_queue, start_next_long_write,
}

-- the responses that an operation may still ask for
abbrev pub work_of : LongWriteOp → ℕ
work_of op = length op.value - op.index + 2

abbrev pub flight_work : Flight → ℕ
flight_work (prepares op) = work_of op
flight_work (executes op) = 1

abbrev pub works : List Flight → ℕ
works [] = 0
works (f ∷ fs) = flight_work f + works fs

abbrev pub queue_work : List LongWriteOp → ℕ
queue_work [] = 0
queue_work (op ∷ ops) = work_of op + queue_work ops

-- the operation that a request is part of
abbrev pub op_of : Flight → LongWriteOp
op_of (prepares op) = op
op_of (executes op) = op

-- the calls of callbacks, the outstanding requests and the waiting operations that have an id
module _ (id : ℕ) where
  abbrev pub one_of : LongWriteOp → ℕ
  one_of op = if op.id == id then 1 else 0

  abbrev pub calls_of : List Told → ℕ
  calls_of [] = 0
  calls_of (t ∷ ts) = (if t.id == id then 1 else 0) + calls_of ts

  abbrev pub sent_of : List Flight → ℕ
  sent_of [] = 0
  sent_of (f ∷ fs) = one_of (op_of f) + sent_of fs

  abbrev pub waiting_of : List LongWriteOp → ℕ
  waiting_of [] = 0
  waiting_of (op ∷ ops) = one_of op + waiting_of ops

  -- the long writes with this id that a client has, and those that it had
  abbrev pub all_of : Client → ℕ
  all_of c = calls_of c.told + sent_of c.outstanding + waiting_of c.long_write_queue

-- An operation is in its value, and the end of the value is a 16-bit number.
abbrev pub IsInside : LongWriteOp → Type 0
IsInside op = (op.index + op.cur_length ≤ length op.value) × (length op.value < 2 ^ 16)

abbrev pub IsInsideFlight : Flight → Type 0
IsInsideFlight (prepares op) = IsInside op
IsInsideFlight (executes op) = Unit {0}

-- Operations are inside their values, and a queue waits for a response.
pub record IsSound (c : Client) : Type 0 where
  pub flights : All IsInsideFlight c.outstanding
  pub queued : All IsInside c.long_write_queue
  pub waits : length c.outstanding ≡ 0 → length c.long_write_queue ≡ 0

-- what is left of work, of which there was `w` at most, and the long writes with an id, `n` of them
pub record Continues (id w n mtu : ℕ) (c : Client) : Type 0 where
  pub sound : IsSound c
  pub less : works c.outstanding + queue_work c.long_write_queue ≤ w
  pub all : all_of id c ≡ n
  pub mtu_lem : c.mtu ≡ mtu

works-append : (fs gs : List Flight) → works (fs ++ gs) ≡ works fs + works gs
works-append [] gs = omega arith
works-append (f ∷ fs) gs = let rest = works-append fs gs in omega arith

pub sent_of-append :
    (id : ℕ) (fs gs : List Flight) → sent_of id (fs ++ gs) ≡ sent_of id fs + sent_of id gs
sent_of-append id [] gs = omega arith
sent_of-append id (f ∷ fs) gs = let rest = sent_of-append id fs gs in omega arith

module _ (id : ℕ) where
  -- A function goes on with that queue.
  abbrev pub GoesOn : (ops : List LongWriteOp) (mtu : ℕ) → (Client → Client) → Type 0
  GoesOn ops mtu go_on =
      (c : Client)
      → All IsInsideFlight c.outstanding
      → c.long_write_queue ≡ ops
      → c.mtu ≡ mtu
      → Continues id (works c.outstanding + queue_work ops)
          (calls_of id c.told + sent_of id c.outstanding + waiting_of id ops) mtu (go_on c)

  pub more_work :
      (w w' n n' mtu : ℕ) (c : Client)
      → Continues id w n mtu c
      → w ≤ w'
      → n ≡ n'
      → Continues id w' n' mtu c
  more_work w w' n n' mtu c h le e = record {
    sound = h.sound;
    less = let l = h.less in omega arith;
    all = h.all ∙ e;
    mtu_lem = h.mtu_lem;
  }

  -- a request that is taken
  taken-Continues :
      (opcode : ℕ) (pdu : List ℕ) (f : Flight) (c : Client)
      → All IsInsideFlight c.outstanding
      → All IsInside c.long_write_queue
      → IsInsideFlight f
      → Continues id
          (works c.outstanding + queue_work c.long_write_queue + flight_work f)
          (all_of id c + one_of id (op_of f))
          c.mtu
          (taken opcode pdu f c)
  unfolding taken
  taken-Continues opcode pdu f c fs ops inside =
      let one = length-append c.outstanding (f ∷ []) in
      let more = works-append c.outstanding (f ∷ []) in
      let same = sent_of-append id c.outstanding (f ∷ []) in
      record {
        sound = record {
          flights = All-append IsInsideFlight c.outstanding (f ∷ []) fs (inside, tt);
          queued = ops;
          waits = λ none. omega arith;
        };
        less = omega arith;
        all = omega arith;
        mtu_lem = refl;
      }

  pub complete-Continues :
      (sends : ℕ → Bool) (go_on : Client → Client) (op : LongWriteOp) (success : Bool) (ecode : ℕ)
      (reliable_error : Bool) (c : Client)
      → All IsInsideFlight c.outstanding
      → All IsInside c.long_write_queue
      → GoesOn c.long_write_queue c.mtu go_on
      → Continues id
          (works c.outstanding + queue_work c.long_write_queue + 1)
          (all_of id c + one_of id op)
          c.mtu
          (complete_with sends go_on op success ecode reliable_error c)
  unfolding complete_with refused tell_written
  complete-Continues sends go_on op success ecode reliable_error c fs ops goes =
      if_lem
        (Continues id (works c.outstanding + queue_work c.long_write_queue + 1)
          (all_of id c + one_of id op) c.mtu)
        (sends c.attempts)
        (λ _.
          taken-Continues exec_write_req ((if success then 1 else 0) ∷ [])
            (executes (completed op success ecode reliable_error)) c fs ops tt)
        (λ _.
          more_work _ _ _ _ c.mtu _
            (goes (tell_written op false reliable_error ecode (refused c)) fs refl refl)
            (omega arith) (omega arith))

  pub prep-Continues :
      (sends : ℕ → Bool) (go_on : Client → Client) (op : LongWriteOp) (c : Client)
      → All IsInsideFlight c.outstanding
      → All IsInside c.long_write_queue
      → IsInside op
      → GoesOn c.long_write_queue c.mtu go_on
      → Continues id
          (works c.outstanding + queue_work c.long_write_queue + work_of op)
          (all_of id c + one_of id op)
          c.mtu
          (prep_with sends go_on op c)
  unfolding prep_with refused
  prep-Continues sends go_on op c fs ops inside goes =
      if_lem
        (Continues id (works c.outstanding + queue_work c.long_write_queue + work_of op)
          (all_of id c + one_of id op) c.mtu)
        (sends c.attempts)
        (λ _. taken-Continues prep_write_req (prep_pdu op) (prepares op) c fs ops inside)
        (λ _.
          more_work _ _ _ _ c.mtu _
            (complete-Continues sends go_on op false 0 false (refused c) fs ops goes) (omega arith)
            refl)

  -- a queue that is started
  start_queue-Continues :
      (sends : ℕ → Bool) (ops : List LongWriteOp) (mtu : ℕ)
      → All IsInside ops
      → (c : Client) → All IsInsideFlight c.outstanding
      → c.mtu ≡ mtu
      → Continues id
          (works c.outstanding + queue_work ops)
          (calls_of id c.told + sent_of id c.outstanding + waiting_of id ops)
          mtu
          (start_queue sends ops c)
  unfolding start_queue
  start_queue-Continues sends [] mtu inside c fs e = record {
    sound = record { flights = fs; queued = tt; waits = λ _. refl };
    less = omega arith;
    all = omega arith;
    mtu_lem = e;
  }
  start_queue-Continues sends (op ∷ ops) mtu inside c fs e =
      subst
        (λ (m : ℕ).
          Continues id (works c.outstanding + queue_work (op ∷ ops))
            (calls_of id c.told + sent_of id c.outstanding + waiting_of id (op ∷ ops)) m
            (start_queue sends (op ∷ ops) c))
        e
        (more_work _ _ _ _ c.mtu _
          (prep-Continues sends (start_queue sends ops) op (record c { long_write_queue = ops }) fs
            inside.1 inside.0
            (λ c' fs' _ e'. start_queue-Continues sends ops c.mtu inside.1 c' fs' e'))
          (omega arith) (omega arith))

  pub start_next-GoesOn :
      (sends : ℕ → Bool) (c : Client)
      → All IsInside c.long_write_queue
      → GoesOn c.long_write_queue c.mtu (start_next_long_write sends)
  unfolding start_next_long_write
  start_next-GoesOn sends c ops c' fs e same =
      subst
        (λ (q : List LongWriteOp).
          Continues id (works c'.outstanding + queue_work c.long_write_queue)
            (calls_of id c'.told + sent_of id c'.outstanding + waiting_of id c.long_write_queue)
            c.mtu (start_queue sends q c'))
        (sym e) (start_queue-Continues sends c.long_write_queue c.mtu ops c' fs same)
