-- ===== src/Bluez/Queue/Foreach.antt =====
-- `queue_foreach` of lib/bluez/queue.c, whose callback may change the queue while it runs.
use minipro.Base.{
  ℕ, zero, suc, ◌+◌, ◌^◌, ◌<◌, ◌≡◌, ◌≢◌, refl, fun_ext, true, false, ◌||◌, Option, none, some, List,
  [], ◌∷◌, arith, ◌==◌, leb, if◌then◌else◌, length,
}
use minipro.Bluez.Queue.Store.{
  Ptr, null, Entry, Heap, put, load, store, increment, queue_entry_ref, queue_entry_unref,
}
use minipro.Bluez.Queue.Cells.{Cells, linked, first, values, Holds, IsQueue}
use minipro.Bluez.Queue.Access.{not_null, load_lem, put_self}
use minipro.Bluez.Queue.{Queue, queue_unref}

-- What a callback can reach: memory, the queue and the world of its caller.
pub record Scene (W : Type 0) : Type 0 where
  pub heap : Heap
  pub queue : Queue
  pub user : W

infixl 5 ◌>>=◌
abbrev ◌>>=◌ : {A B : Type 0} → Option A → (A → Option B) → Option B
none >>= k = none
some a >>= k = k a

module _ {W : Type 0} (function : Ptr → Scene W → Option (Scene W)) where
  -- The loop: each entry is referenced while the callback runs, so its `next` can be read afterwards.
  unfoldable pub foreach_loop : ℕ → (entry : Ptr) → Scene W → Option (Scene W)
  foreach_loop zero entry s = none
  foreach_loop (suc k) entry s =
      let rest = do
        (_, h) ← queue_entry_ref entry s.heap
        (e, _) ← load entry h
        t ← function e.value (record s { heap = h })
        (after, _) ← load entry t.heap
        (_, g) ← queue_entry_unref entry t.heap
        foreach_loop k after.next (record t { heap = g })
      in if entry == null || (s.queue.head == null || leb s.queue.ref_count 1) then some s else rest

  -- `queue_foreach` of a queue and a function, which are not NULL (with either NULL the code returns
  -- at once); `none` in the place of the queue when its last reference has gone
  unfoldable pub queue_foreach : (rounds : ℕ) → Scene W → Option (Scene W × Option Queue)
  queue_foreach rounds s = if s.queue.head == null then some (s, some s.queue) else do
    t ←
        foreach_loop rounds s.queue.head
          (record s { queue = record (s.queue) { ref_count = increment s.queue.ref_count } })
    some (t, queue_unref t.queue)

-- Taking a reference to an entry and dropping it again leaves memory as it was.
put_back : (h : Heap) (a : Ptr) (x e : Entry) → h a ≡ some e → put (put h a (some x)) a (some e) ≡ h
unfolding put
put_back h a x e there = fun_ext λ b. ground arith

unref_ref :
    (q : Queue)
    → 0 < q.ref_count
    → q.ref_count + 1 < 2 ^ 31
    → queue_unref (record q { ref_count = increment q.ref_count }) ≡ some q
unfolding queue_unref
unref_ref q referred small = ground arith

-- an entry that the loop refers to too
abbrev held_entry : Ptr → Ptr → Entry
held_entry v n = record (linked v n) { ref_count = 2 }

ref_lem :
    (h : Heap) (a v n : Ptr)
    → a ≢ null
    → h a ≡ some (linked v n)
    → queue_entry_ref a h ≡ some (a, put h a (some (held_entry v n)))
unfolding queue_entry_ref store
ref_lem h a v n ne there = rw (not_null a ne, load_lem h a _ ne there)

unref_lem :
    (h : Heap) (a v n : Ptr)
    → a ≢ null
    → h a ≡ some (linked v n)
    → queue_entry_unref a (put h a (some (held_entry v n))) ≡ some (tt, h)
unfolding queue_entry_unref store
unref_lem h a v n ne there =
    rw (load_lem _ a _ ne (put_self h a _), put_back h a (held_entry v n) (linked v n) there)

module _ {W : Type 0} (visit : Ptr → W → W) where
  -- `visit` for each value, first to last
  unfoldable pub visit_all : List Ptr → W → W
  visit_all [] u = u
  visit_all (v ∷ vs) u = visit_all vs (visit v u)

  -- a callback that leaves memory and the queue alone
  abbrev pub IsQuiet : (Ptr → Scene W → Option (Scene W)) → Type 0
  IsQuiet function =
      (v : Ptr) (h : Heap) (q : Queue) (u : W)
      → function v (record { heap = h; queue = q; user = u })
        ≡ some (record { heap = h; queue = q; user = visit v u })

  module _ (function : Ptr → Scene W → Option (Scene W)) (quiet : IsQuiet function) where
    foreach_loop_lem :
        (k : ℕ) (h : Heap) (q : Queue) (entry : Ptr) (u : W) (cs : Cells)
        → entry ≡ first null cs
        → Holds h null cs
        → (q.head == null) ≡ false
        → leb q.ref_count 1 ≡ false
        → length cs < k
        → foreach_loop function k entry (record { heap = h; queue = q; user = u })
          ≡ some (record { heap = h; queue = q; user = visit_all (values cs) u })
    unfolding foreach_loop visit_all
    foreach_loop_lem zero h q entry u cs e hold some_head held fuel = absurd (omega arith)
    foreach_loop_lem (suc k) h q entry u [] e hold some_head held fuel = rw e
    foreach_loop_lem (suc k) h q entry u ((a, v) ∷ cs) e hold some_head held fuel =
        rw
          (
            e,
            not_null a hold.0,
            some_head,
            held,
            ref_lem h a v (first null cs) hold.0 hold.1,
            load_lem _ a _ hold.0 (put_self h a _),
            quiet v _ q u,
            load_lem _ a _ hold.0 (put_self h a _),
            unref_lem h a v (first null cs) hold.0 hold.1,
          )
          (foreach_loop_lem k h q _ (visit v u) cs refl hold.3 some_head held (omega arith))

    -- On a queue that is referred to, and less than 2^31 - 1 times, with a callback that leaves memory
    -- and the queue alone, `queue_foreach` makes one call for each value, first to last, within `entries + 1` rounds, and leaves memory and the queue as they were.
    pub queue_foreach-visit_all :
        (h : Heap) (q : Queue) (u : W) (cs : Cells)
        → IsQueue h q cs
        → 0 < q.ref_count
        → q.ref_count + 1 < 2 ^ 31
        → (t : Scene W) × (queue_foreach function
              (q.entries + 1)
              (record { heap = h; queue = q; user = u })
            ≡ some (t, some q))
          × (t.heap ≡ h)
          × (t.user ≡ visit_all (values cs) u)
    unfolding queue_foreach visit_all queue_unref
    queue_foreach-visit_all h q u [] is referred small =
        let empty : (q.head == null) ≡ true = rw is.head in
        (record { heap = h; queue = q; user = u }, rw empty, refl, refl)
    queue_foreach-visit_all h q u ((a, v) ∷ cs) is referred small =
        let some_head : (q.head == null) ≡ false = rw is.head (not_null a is.chain.0) in
        let r : Queue = record q { ref_count = increment q.ref_count } in
        (
          record { heap = h; queue = r; user = visit_all (values ((a, v) ∷ cs)) u },
          rw
              (
                some_head,
                foreach_loop_lem (q.entries + 1) h r q.head u ((a, v) ∷ cs) is.head is.chain
                    some_head (ground arith) (omega (arith, is.entries)),
              )
              (rw (unref_ref q referred small)),
          refl,
          refl,
        )
