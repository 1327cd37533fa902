-- ===== src/Bluez/Queue/Removal.antt =====
-- The operations of lib/bluez/queue.c that take entries out from anywhere in a queue.
pub mod Unlink
pub mod Remove
pub mod All
pub mod Clear
use minipro.Base.{
  ℕ, zero, suc, Bool, true, false, Option, none, some, ◌+◌, ◌==◌, if◌then◌else◌, is_some,
}
use minipro.Bluez.Queue.Store.{
  Ptr, null, Heap, Run, pure, resume, ◌>>=◌, ◌>>◌, load, set_next, increment, decrement,
  queue_entry_unref,
}
use minipro.Bluez.Queue.{Queue, queue_unref}

-- The body that the loops of `queue_remove` and `queue_remove_if` share: take `entry` out, which
-- comes behind `prev`.
unfoldable pub unlink : (prev entry : Ptr) → Queue → Run Queue
unlink prev entry q = do
  e ← load entry
  if prev == null then pure tt else set_next prev e.next
  queue_entry_unref entry
  pure (record q {
    head = (if prev == null then e.next else q.head);
    tail = (if e.next == null then prev else q.tail);
    entries = decrement q.entries;
  })

-- that loop, with the value of the entry that was taken out
unfoldable pub remove_loop :
    (Ptr → Bool) → ℕ → (prev entry : Ptr) → Queue → Run (Option Ptr × Queue)
remove_loop matches zero prev entry q = λ _. none
remove_loop matches (suc k) prev entry q = if entry == null then pure (none, q) else do
  e ← load entry
  if matches e.value
      then (do q' ← unlink prev entry q; pure (some e.value, q'))
      else remove_loop matches k entry e.next q

unfoldable pub remove_where : (Ptr → Bool) → Queue → Run (Option Ptr × Queue)
remove_where matches q = remove_loop matches (q.entries + 1) null q.head q

unfoldable pub queue_remove : Option Queue → Ptr → Run (Bool × Option Queue)
queue_remove none value = pure (false, none)
queue_remove (some q) value = do
  (out, q') ← remove_where (λ v. v == value) q
  pure (is_some out, some q')

abbrev pub or_null : Option Ptr → Ptr
or_null none = null
or_null (some v) = v

-- `function` with its `user_data`, or NULL
unfoldable pub queue_remove_if : Option Queue → Option (Ptr → Bool) → Run (Ptr × Option Queue)
queue_remove_if none function = pure (null, none)
queue_remove_if (some q) none = pure (null, some q)
queue_remove_if (some q) (some matches) = do
  (out, q') ← remove_where matches q
  pure (or_null out, some q')

abbrev pub drop_reference : Option Queue → Option Queue
drop_reference none = none
drop_reference (some q) = queue_unref q

module _ {W : Type 0} (destroy : Option (Ptr → W → W)) where
  -- `if (destroy) destroy(data)`, which may change the caller's world `w`
  unfoldable pub call_destroy : Ptr → W → W
  call_destroy v w = elim destroy [ none ↦ w | some f ↦ f v w ]

  -- The loop with `function`. It tests the head that it began with, so it ends by its `break`,
  -- taken when `entries` has not changed.
  unfoldable pub remove_all_loop : (Ptr → Bool) → ℕ → Queue → ℕ → W → Run (ℕ × Queue × W)
  remove_all_loop matches zero q count w = λ _. none
  remove_all_loop matches (suc k) q count w = do
    (out, r) ← remove_where matches q
    if q.entries == r.entries
        then pure (count, r, w)
        else remove_all_loop matches k r (increment count) (call_destroy (or_null out) w)

  -- the loop without `function`, over entries that the queue has already let go
  unfoldable pub clear_loop : ℕ → (entry : Ptr) → ℕ → W → Run (ℕ × W)
  clear_loop zero entry count w = λ _. none
  clear_loop (suc k) entry count w = if entry == null then pure (count, w) else do
    e ← load entry
    queue_entry_unref entry
    clear_loop k e.next (increment count) (call_destroy e.value w)

  unfoldable pub queue_remove_all :
      Option Queue → Option (Ptr → Bool) → W → Run (ℕ × Option Queue × W)
  queue_remove_all none function w = pure (0, none, w)
  queue_remove_all (some q) (some matches) w = if q.head == null then pure (0, some q, w) else do
    (count, q', w') ← remove_all_loop matches (q.entries + 1) q 0 w
    pure (count, some q', w')
  queue_remove_all (some q) none w = do
    (count, w') ← clear_loop (q.entries + 1) q.head 0 w
    pure (count, some (record q { head = null; tail = null; entries = 0 }), w')

  -- the queue that is left when others still refer to it
  unfoldable pub queue_destroy : Option Queue → W → Run (Option Queue × W)
  queue_destroy none w = pure (none, w)
  queue_destroy (some q) w = do
    (count, q', w') ← queue_remove_all (some q) none w
    pure (drop_reference q', w')
