-- ===== src/Bluez/Queue/Access.antt =====
-- Each access to an entry that is there, as an equation.
use minipro.Base.{◌≡◌, ◌≢◌, false, Option, none, some, arith, ◌==◌}
use minipro.Bluez.Queue.Store.{
  Ptr, null, Entry, Heap, put, load, store, set_next, queue_entry_ref, queue_entry_new,
  queue_entry_unref, free,
}
use minipro.Bluez.Queue.Cells.{Cells, linked, NotIn, Holds, Holds-put}

-- the heap after `queue_entry_new`
abbrev pub allocate : Heap → Ptr → Ptr → Heap
allocate h fresh v =
    put (put h fresh (some (record (linked v null) { ref_count = 0 }))) fresh (some (linked v null))

pub not_null : (p : Ptr) → p ≢ null → (p == null) ≡ false
not_null p ne = ground arith

pub load_lem : (h : Heap) (p : Ptr) (e : Entry) → p ≢ null → h p ≡ some e → load p h ≡ some (e, h)
unfolding load
load_lem h p e ne there = rw (not_null p ne, there)

pub put_self : (h : Heap) (p : Ptr) (e : Option Entry) → put h p e p ≡ e
unfolding put
put_self h p e = ground arith

pub put_ne : (h : Heap) (p a : Ptr) (e : Option Entry) → a ≢ p → put h p e a ≡ h a
unfolding put
put_ne h p a e ne = ground arith

pub entry_new_lem :
    (h : Heap) (fresh v : Ptr)
    → fresh ≢ null
    → queue_entry_new fresh v h ≡ some (fresh, allocate h fresh v)
unfolding queue_entry_new queue_entry_ref store
entry_new_lem h fresh v ne = rw (not_null fresh ne, load_lem _ fresh _ ne (put_self h fresh _))

pub set_next_lem :
    (h : Heap) (p q v n : Ptr)
    → p ≢ null
    → h p ≡ some (linked v n)
    → set_next p q h ≡ some (tt, put h p (some (linked v q)))
unfolding set_next store
set_next_lem h p q v n ne e = rw (load_lem h p (linked v n) ne e)

-- The new entry is the only address that `queue_entry_new` writes.
pub Holds-allocate :
    (h : Heap) (fresh v stop : Ptr) (cs : Cells)
    → NotIn fresh cs
    → Holds h stop cs
    → Holds (allocate h fresh v) stop cs
Holds-allocate h fresh v stop cs out hold =
    Holds-put _ fresh stop _ cs out (Holds-put h fresh stop _ cs out hold)

pub allocate_ne : (h : Heap) (fresh v a : Ptr) → a ≢ fresh → allocate h fresh v a ≡ h a
unfolding put
allocate_ne h fresh v a ne = ground arith

-- the heap after the last reference to an entry has gone
abbrev pub release : Heap → Ptr → Ptr → Ptr → Heap
release h p v n = put (put h p (some (record (linked v n) { ref_count = 0 }))) p none

pub entry_unref_lem :
    (h : Heap) (p v n : Ptr)
    → p ≢ null
    → h p ≡ some (linked v n)
    → queue_entry_unref p h ≡ some (tt, release h p v n)
unfolding queue_entry_unref store free
entry_unref_lem h p v n ne e = rw (load_lem h p (linked v n) ne e)

pub Holds-release :
    (h : Heap) (p v n stop : Ptr) (cs : Cells)
    → NotIn p cs
    → Holds h stop cs
    → Holds (release h p v n) stop cs
Holds-release h p v n stop cs out hold =
    Holds-put _ p stop _ cs out (Holds-put h p stop _ cs out hold)

pub release_ne : (h : Heap) (p v n a : Ptr) → a ≢ p → release h p v n a ≡ h a
unfolding put
release_ne h p v n a ne = ground arith
