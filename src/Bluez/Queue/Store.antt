-- ===== src/Bluez/Queue/Store.antt =====
-- The memory that holds the entries of a queue, and commands that read and write it.
use minipro.Base.{ℕ, ◌+◌, ◌-◌, ◌%◌, ◌^◌, Option, none, some, ◌==◌, if◌then◌else◌}

-- `void *` and `struct queue_entry *`, with 0 for NULL
abbrev pub Ptr : Type 0
Ptr = ℕ

abbrev pub null : Ptr
null = 0

-- `struct queue_entry`
pub record Entry : Type 0 where
  pub ref_count : ℕ
  pub value : Ptr
  pub next : Ptr

-- an address with no entry is not allocated
abbrev pub Heap : Type 0
Heap = Ptr → Option Entry

unfoldable pub put : Heap → Ptr → Option Entry → Heap
put h p e a = if a == p then e else h a

-- `none` is undefined behaviour (a bad access), or a loop that ran out of rounds.
abbrev pub Run : Type 0 → Type 0
Run A = Heap → Option (A × Heap)

abbrev pub pure : {A : Type 0} → A → Run A
pure a h = some (a, h)

-- to go on with a result, if there is one
abbrev pub resume : {A B : Type 0} → Option (A × Heap) → (A → Run B) → Option (B × Heap)
resume none k = none
resume (some (a, g)) k = k a g

infixl 5 ◌>>=◌ ◌>>◌
abbrev pub ◌>>=◌ : {A B : Type 0} → Run A → (A → Run B) → Run B
m >>= k = λ h. resume (m h) k

abbrev pub ◌>>◌ : {B : Type 0} → Run (Unit {0}) → Run B → Run B
m >> k = m >>= λ _. k

-- `*p`
unfoldable pub load : Ptr → Run Entry
load p h = if p == null then none else elim (h p) [ none ↦ none | some e ↦ some (e, h) ]

-- a write to memory that is there, or that the allocator has just returned
unfoldable pub store : Ptr → Entry → Run (Unit {0})
unfolding put
store p e h = some (tt, put h p (some e))

unfoldable pub free : Ptr → Run (Unit {0})
unfolding put
free p h = some (tt, put h p none)

-- `unsigned int` and `int` counters
abbrev pub increment : ℕ → ℕ
increment n = (n + 1) % 2 ^ 32

abbrev pub decrement : ℕ → ℕ
decrement n = (n + 2 ^ 32 - 1) % 2 ^ 32

-- `p->next = q`
unfoldable pub set_next : Ptr → Ptr → Run (Unit {0})
set_next p q = do e ← load p; store p (record e { next = q })

-- `queue_entry_ref` of an entry that is not NULL
unfoldable pub queue_entry_ref : Ptr → Run Ptr
queue_entry_ref p =
    if p == null
    then pure null
    else do e ← load p; store p (record e { ref_count = increment e.ref_count }); pure p

-- `queue_entry_unref`: the last reference frees the entry.
unfoldable pub queue_entry_unref : Ptr → Run (Unit {0})
queue_entry_unref p = do
  e ← load p
  store p (record e { ref_count = decrement e.ref_count })
  if decrement e.ref_count == 0 then free p else pure tt

-- `queue_entry_new`; `fresh` is what the allocator returns, zeroed, or NULL.
unfoldable pub queue_entry_new : (fresh : Ptr) → Ptr → Run Ptr
queue_entry_new fresh value = if fresh == null then pure null else do
  store fresh (record { ref_count = 0; value = value; next = null })
  queue_entry_ref fresh
