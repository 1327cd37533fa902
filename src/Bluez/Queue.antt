-- ===== src/Bluez/Queue.antt =====
-- lib/bluez/queue.c: a singly linked queue with a tail pointer and reference counts.
-- A queue pointer is an `Option Queue`, `none` for NULL; an operation that writes through it
-- returns the new queue. Loops are given `entries + 1` rounds.
pub mod Store
pub mod Cells
pub mod Push
pub mod Access
pub mod Split
pub mod After
pub mod Removal
pub mod Read
pub mod Foreach
mod Tests
use Store.{
  Ptr, null, Entry, Heap, Run, pure, ◌>>=◌, ◌>>◌, load, set_next, increment, decrement,
  queue_entry_ref, queue_entry_unref, queue_entry_new,
}
use minipro.Base.{
  ℕ, zero, suc, ◌+◌, ◌<◌, Bool, true, false, not, ◌&&◌, Option, none, some, ◌==◌, ltb,
  if◌then◌else◌, is_some,
}

-- `struct queue`
pub record Queue : Type 0 where
  pub ref_count : ℕ
  pub head : Ptr
  pub tail : Ptr
  pub entries : ℕ

-- `queue_ref`
unfoldable pub queue_ref : Option Queue → Option Queue
queue_ref none = none
queue_ref (some q) = some (record q { ref_count = increment q.ref_count })

-- `queue_unref`; `none` when the queue is freed
unfoldable pub queue_unref : Queue → Option Queue
queue_unref q =
    if decrement q.ref_count == 0
    then none
    else some (record q { ref_count = decrement q.ref_count })

-- `queue_new`; `allocated` says whether the allocator had memory.
unfoldable pub queue_new : (allocated : Bool) → Option Queue
queue_new allocated =
    if allocated
    then queue_ref (some (record { ref_count = 0; head = null; tail = null; entries = 0 }))
    else none

unfoldable pub queue_push_tail : (fresh : Ptr) → Option Queue → Ptr → Run (Bool × Option Queue)
queue_push_tail fresh none value = pure (false, none)
queue_push_tail fresh (some q) value = do
  entry ← queue_entry_new fresh value
  if entry == null then pure (false, some q) else do
    if q.tail == null then pure tt else set_next q.tail entry
    pure (
      true,
      some (record q {
        head = (if q.head == null then entry else q.head);
        tail = entry;
        entries = increment q.entries;
      }),
    )

unfoldable pub queue_push_head : (fresh : Ptr) → Option Queue → Ptr → Run (Bool × Option Queue)
queue_push_head fresh none value = pure (false, none)
queue_push_head fresh (some q) value = do
  entry ← queue_entry_new fresh value
  if entry == null then pure (false, some q) else do
    set_next entry q.head
    pure (
      true,
      some (record q {
        head = entry;
        tail = (if q.tail == null then entry else q.tail);
        entries = increment q.entries;
      }),
    )

-- the first entry from `tmp` on that holds `value`, or NULL
unfoldable pub find_entry : ℕ → (tmp value : Ptr) → Run Ptr
find_entry zero tmp value = λ _. none
find_entry (suc k) tmp value =
    if tmp == null
    then pure null
    else do e ← load tmp; if e.value == value then pure tmp else find_entry k e.next value

unfoldable pub queue_push_after :
    (fresh : Ptr) → Option Queue → (entry value : Ptr) → Run (Bool × Option Queue)
queue_push_after fresh none entry value = pure (false, none)
queue_push_after fresh (some q) entry value = do
  qentry ← find_entry (q.entries + 1) q.head entry
  if qentry == null then pure (false, some q) else do
    new_entry ← queue_entry_new fresh value
    if new_entry == null then pure (false, some q) else do
      e ← load qentry
      set_next new_entry e.next
      set_next qentry new_entry
      pure (
        true,
        some (record q {
          tail = (if e.next == null then new_entry else q.tail);
          entries = increment q.entries;
        }),
      )

unfoldable pub queue_pop_head : Option Queue → Run (Ptr × Option Queue)
queue_pop_head none = pure (null, none)
queue_pop_head (some q) = if q.head == null then pure (null, some q) else do
  e ← load q.head
  queue_entry_unref q.head
  pure (
    e.value,
    some (record q {
      head = e.next;
      tail = (if e.next == null then null else q.tail);
      entries = decrement q.entries;
    }),
  )

unfoldable pub queue_peek_head : Option Queue → Run Ptr
queue_peek_head none = pure null
queue_peek_head (some q) = if q.head == null then pure null else do e ← load q.head; pure e.value

unfoldable pub queue_peek_tail : Option Queue → Run Ptr
queue_peek_tail none = pure null
queue_peek_tail (some q) = if q.tail == null then pure null else do e ← load q.tail; pure e.value

-- the loop of `queue_find`
unfoldable pub find_loop : (Ptr → Bool) → ℕ → Ptr → Run Ptr
find_loop matches zero entry = λ _. none
find_loop matches (suc k) entry =
    if entry == null
    then pure null
    else do e ← load entry; if matches e.value then pure e.value else find_loop matches k e.next

-- `matches` is `function` with its `match_data`; `direct_match` compares the pointers.
unfoldable pub queue_find : Option Queue → (Ptr → Bool) → Run Ptr
queue_find none matches = pure null
queue_find (some q) matches = find_loop matches (q.entries + 1) q.head

unfoldable pub queue_length : Option Queue → ℕ
queue_length none = 0
queue_length (some q) = q.entries

unfoldable pub queue_isempty : Option Queue → Bool
queue_isempty none = true
queue_isempty (some q) = q.entries == 0

unfoldable pub queue_get_entries : Option Queue → Ptr
queue_get_entries none = null
queue_get_entries (some q) = q.head
