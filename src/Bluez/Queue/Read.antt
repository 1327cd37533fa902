-- ===== src/Bluez/Queue/Read.antt =====
-- Taking the first value, and the operations that only read.
use minipro.Base.{
  ℕ, zero, suc, ◌+◌, ◌<◌, ◌≡◌, ◌≢◌, refl, Bool, true, false, none, some, [], ◌∷◌, arith, ◌==◌,
  if◌then◌else◌, length, Bool-cases, inl, inr,
}
use minipro.Bluez.Queue.Store.{Ptr, null, Heap}
use minipro.Bluez.Queue.Cells.{
  Cells, first, last, last_value, Holds, IsQueue, Owns, Returns, last-ne-null, load_last,
}
use minipro.Bluez.Queue.Access.{
  not_null, load_lem, put_self, entry_unref_lem, Holds-release, release_ne,
}
use minipro.Bluez.Queue.Split.{first_match}
use minipro.Bluez.Queue.Removal.{or_null}
use minipro.Bluez.Queue.{
  Queue, queue_pop_head, queue_peek_head, queue_peek_tail, find_loop, queue_find, queue_length,
  queue_isempty,
}

-- the first value, the last value and the values behind the first, NULL where there is none
abbrev pub head_value : Cells → Ptr
head_value [] = null
head_value ((a, v) ∷ cs) = v

abbrev pub tail_value : Cells → Ptr
tail_value [] = null
tail_value ((a, v) ∷ cs) = last_value v cs

abbrev pub rest : Cells → Cells
rest [] = []
rest (c ∷ cs) = cs

pop-tail :
    (h : Heap) (t a : Ptr) (cs : Cells)
    → t ≡ last a cs
    → Holds h null cs
    → (if first null cs == null then null else t) ≡ last null cs
pop-tail h t a [] e hold = refl
pop-tail h t a ((b, w) ∷ cs) e hold = rw (not_null b hold.0) e

-- `queue_pop_head` hands over the first value, or NULL for an empty queue, frees its entry, keeps the
-- rest in order, and writes nothing else.
pub pop_head-Owns :
    (h : Heap) (q : Queue) (cs : Cells)
    → IsQueue h q cs
    → Returns
        (λ (out, q') g.
          (out ≡ head_value cs)
          × Owns g q' (rest cs)
          × ((a : Ptr) → a ≢ first null cs → g a ≡ h a)
          × (cs ≢ [] → g (first null cs) ≡ none))
        (queue_pop_head (some q) h)
unfolding queue_pop_head
pop_head-Owns h q [] is =
    let empty : (q.head == null) ≡ true = rw is.head in
    rw empty (refl, is, (λ a _. refl), λ some_entry. absurd (some_entry refl))
pop_head-Owns h q ((a, v) ∷ cs) is =
    let some_head : (q.head == null) ≡ false = rw is.head (not_null a is.chain.0) in
    rw
      (
        some_head,
        is.head,
        load_lem h a _ is.chain.0 is.chain.1,
        entry_unref_lem h a v (first null cs) is.chain.0 is.chain.1,
      )
      (
        refl,
        record {
          head = refl;
          tail = pop-tail h q.tail a cs is.tail is.chain.3;
          entries = omega (arith, is.entries, is.bounded);
          bounded = omega (arith, is.bounded);
          chain = Holds-release h a v (first null cs) null cs is.chain.2 is.chain.3;
        },
        (λ b other. release_ne h a v (first null cs) b other),
        λ _. put_self _ a none,
      )

find_loop_lem :
    (matches : Ptr → Bool) (h : Heap) (k : ℕ) (entry : Ptr) (cs : Cells)
    → entry ≡ first null cs
    → Holds h null cs
    → length cs < k
    → find_loop matches k entry h ≡ some (or_null (first_match matches cs), h)
unfolding find_loop first_match
find_loop_lem matches h zero entry cs e hold fuel = absurd (omega arith)
find_loop_lem matches h (suc k) entry [] e hold fuel = rw e
find_loop_lem matches h (suc k) entry ((a, v) ∷ cs) e hold fuel =
    rw (e, not_null a hold.0, load_lem h a _ hold.0 hold.1)
      (elim (Bool-cases (matches v)) [
        | inl hit ↦ rw hit
        | inr miss ↦ rw miss (find_loop_lem matches h k _ cs refl hold.3 (omega arith))
      ])

peek_ends :
    (h : Heap) (q : Queue) (cs : Cells)
    → IsQueue h q cs
    → (queue_peek_head (some q) h ≡ some (head_value cs, h))
      × (queue_peek_tail (some q) h ≡ some (tail_value cs, h))
unfolding queue_peek_head queue_peek_tail
peek_ends h q [] is =
    let no_head : (q.head == null) ≡ true = rw is.head in
    let no_tail : (q.tail == null) ≡ true = rw is.tail in (rw no_head, rw no_tail)
peek_ends h q ((a, v) ∷ cs) is =
    let some_head : (q.head == null) ≡ false = rw is.head (not_null a is.chain.0) in
    let ne = last-ne-null h a null cs is.chain.0 is.chain.3 in
    let some_tail : (q.tail == null) ≡ false = rw is.tail (not_null (last a cs) ne) in
    (
      rw (some_head, is.head, load_lem h a _ is.chain.0 is.chain.1),
      rw (some_tail, is.tail, load_lem h (last a cs) _ ne (load_last h a v null cs is.chain)),
    )

-- The readers agree with the list of entries and leave memory alone: the peeks return the value at
-- either end, `queue_find` the first value that matches, NULL where there is none; `queue_length`
-- counts, and `queue_isempty` says whether the count is 0.
pub readers_lem :
    (h : Heap) (q : Queue) (cs : Cells) (matches : Ptr → Bool)
    → IsQueue h q cs
    → (queue_peek_head (some q) h ≡ some (head_value cs, h))
      × (queue_peek_tail (some q) h ≡ some (tail_value cs, h))
      × (queue_find (some q) matches h ≡ some (or_null (first_match matches cs), h))
      × (queue_length (some q) ≡ length cs)
      × (queue_isempty (some q) ≡ (length cs == 0))
unfolding queue_find queue_length queue_isempty
readers_lem h q cs matches is =
    let ends = peek_ends h q cs is in
    (
      ends.0,
      ends.1,
      find_loop_lem matches h (q.entries + 1) q.head cs is.head is.chain
          (omega (arith, is.entries)),
      is.entries,
      rw is.entries,
    )
