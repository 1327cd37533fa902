-- ===== src/Bluez/Queue/After.antt =====
-- `queue_push_after`.
use minipro.Base.{
  ℕ, zero, suc, ◌+◌, ◌^◌, ◌<◌, ◌≡◌, ◌≢◌, refl, sym, ◌∙◌, Bool, true, false, none, some, [], ◌∷◌,
  ◌++◌, arith, ◌==◌, if◌then◌else◌, length, length-append, is_some,
}
use minipro.Bluez.Queue.Store.{Ptr, null, Heap, put}
use minipro.Bluez.Queue.Cells.{
  Cells, linked, first, last, NotIn, Holds, IsQueue, Owns, Returns, SameOutside, NotIn-none,
  Holds-put, Holds-append, first-append,
}
use minipro.Bluez.Queue.Access.{
  not_null, load_lem, put_self, put_ne, allocate, entry_new_lem, set_next_lem, Holds-allocate,
  allocate_ne,
}
use minipro.Bluez.Queue.Split.{
  Misses, Split, missing, found, first_match, insert_behind, split, missing_lem, found_lem,
  NotIn-split, Holds-split, NotIn-Disjoint, Disjoint-cons,
}
use minipro.Bluez.Queue.{Queue, find_entry, queue_push_after}

-- the test of `queue_push_after`
abbrev pub holding : Ptr → Ptr → Bool
holding entry v = v == entry

module _ (h : Heap) (entry : Ptr) where
  find_entry-found :
      (k : ℕ) (xs : Cells) (p v : Ptr) (ys : Cells)
      → Holds h null (xs ++ ((p, v) ∷ ys))
      → Misses (holding entry) xs
      → holding entry v ≡ true
      → length xs < k
      → find_entry k (first null (xs ++ ((p, v) ∷ ys))) entry h ≡ some (p, h)
  unfolding find_entry
  find_entry-found zero xs p v ys hold all hit fuel = absurd (omega arith)
  find_entry-found (suc k) [] p v ys hold all hit fuel =
      rw (not_null p hold.0, load_lem h p _ hold.0 hold.1, hit)
  find_entry-found (suc k) ((a, w) ∷ xs) p v ys hold all hit fuel =
      rw (not_null a hold.0, load_lem h a _ hold.0 hold.1, all.0)
        (find_entry-found k xs p v ys hold.3 all.1 hit (omega arith))

  find_entry-missing :
      (k : ℕ) (cs : Cells)
      → Holds h null cs
      → Misses (holding entry) cs
      → length cs < k
      → find_entry k (first null cs) entry h ≡ some (null, h)
  unfolding find_entry
  find_entry-missing zero cs hold all fuel = absurd (omega arith)
  find_entry-missing (suc k) [] hold all fuel = refl
  find_entry-missing (suc k) ((a, w) ∷ cs) hold all fuel =
      rw (not_null a hold.0, load_lem h a _ hold.0 hold.1, all.0)
        (find_entry-missing k cs hold.3 all.1 (omega arith))

-- the heap that `queue_push_after` leaves
abbrev inserted : Heap → (fresh v p w n : Ptr) → Heap
inserted h fresh v p w n =
    put (put (allocate h fresh v) fresh (some (linked v n))) p (some (linked w fresh))

inserted_ne :
    (h : Heap) (fresh v p w n a : Ptr) → a ≢ fresh → a ≢ p → inserted h fresh v p w n a ≡ h a
inserted_ne h fresh v p w n a f e =
    put_ne _ p a _ e ∙ (put_ne _ fresh a _ f ∙ allocate_ne h fresh v a f)

Holds-inserted :
    (h : Heap) (fresh v p w n stop : Ptr) (cs : Cells)
    → NotIn fresh cs
    → NotIn p cs
    → Holds h stop cs
    → Holds (inserted h fresh v p w n) stop cs
Holds-inserted h fresh v p w n stop cs f e hold =
    Holds-put _ p stop _ cs e
      (Holds-put _ fresh stop _ cs f (Holds-allocate h fresh v stop cs f hold))

-- The chain after the new entry has been linked in.
insert-Holds :
    (h : Heap) (fresh v p w : Ptr) (xs ys : Cells)
    → fresh ≢ null
    → NotIn fresh (xs ++ ((p, w) ∷ ys))
    → Holds h null (xs ++ ((p, w) ∷ ys))
    → Holds (inserted h fresh v p w (first null ys)) null (xs ++ ((p, w) ∷ ((fresh, v) ∷ ys)))
insert-Holds h fresh v p w xs ys ne out hold =
    let cut = Holds-split h null xs ((p, w) ∷ ys) hold in
    let apart = NotIn-Disjoint p w xs ys cut.2 in
    let free = NotIn-split fresh xs ((p, w) ∷ ys) out in
    Holds-append _ null xs ((p, w) ∷ ((fresh, v) ∷ ys))
      (Holds-inserted h fresh v p w (first null ys) p xs free.0 apart.0 cut.0)
      (
        cut.1.0,
        put_self _ p _,
        (λ e. free.1.0 (sym e), cut.1.2),
        (
          ne,
          put_ne _ p fresh _ free.1.0 ∙ put_self _ fresh _,
          free.1.1,
          Holds-inserted h fresh v p w (first null ys) null ys free.1.1 cut.1.2 cut.1.3,
        ),
      )
      (Disjoint-cons p w xs ((fresh, v) ∷ ys) apart.0 (Disjoint-cons fresh v xs ys free.0 apart.1))

insert-tail :
    (h : Heap) (t d fresh v p w : Ptr) (xs ys : Cells)
    → t ≡ last d (xs ++ ((p, w) ∷ ys))
    → Holds h null ys
    → (if first null ys == null then fresh else t) ≡ last d (xs ++ ((p, w) ∷ ((fresh, v) ∷ ys)))
insert-tail h t d fresh v p w [] [] e hold = refl
insert-tail h t d fresh v p w [] ((a, b) ∷ ys) e hold = rw (not_null a hold.0) e
insert-tail h t d fresh v p w ((a, b) ∷ xs) ys e hold = insert-tail h t a fresh v p w xs ys e hold

module _ (h : Heap) (q : Queue) (fresh entry v : Ptr) (ne : fresh ≢ null)
    (unused : h fresh ≡ none) where
  push_after-found :
      (xs : Cells) (p w : Ptr) (ys : Cells)
      → IsQueue h q (xs ++ ((p, w) ∷ ys))
      → Misses (holding entry) xs
      → holding entry w ≡ true
      → length (xs ++ ((p, w) ∷ ys)) + 1 < 2 ^ 32
      → Returns
          (λ (done, q') g.
            (done ≡ true)
            × Owns g q' (xs ++ ((p, w) ∷ ((fresh, v) ∷ ys)))
            × SameOutside fresh (xs ++ ((p, w) ∷ ys)) h g)
          (queue_push_after fresh (some q) entry v h)
  unfolding queue_push_after
  push_after-found xs p w ys is all hit room =
      let out = NotIn-none h fresh null (xs ++ ((p, w) ∷ ys)) unused is.chain in
      let free = NotIn-split fresh xs ((p, w) ∷ ys) out in
      let cut = Holds-split h null xs ((p, w) ∷ ys) is.chain in
      rw
        (
          is.head,
          is.entries,
          find_entry-found h entry (length (xs ++ ((p, w) ∷ ys)) + 1) xs p w ys is.chain all hit
              (omega (arith, length-append {0} xs ((p, w) ∷ ys))),
          not_null p cut.1.0,
          entry_new_lem h fresh v ne,
          not_null fresh ne,
          load_lem (allocate h fresh v) p _ cut.1.0
              (allocate_ne h fresh v p (λ e. free.1.0 (sym e)) ∙ cut.1.1),
          set_next_lem (allocate h fresh v) fresh (first null ys) v null ne (put_self _ fresh _),
          set_next_lem _ p fresh w (first null ys) cut.1.0 (
              put_ne _ fresh p _ (λ e. free.1.0 (sym e))
              ∙ (allocate_ne h fresh v p (λ e. free.1.0 (sym e)) ∙ cut.1.1)),
        )
        (
          refl,
          record {
            head = first-append null xs _ ∙ sym (first-append null xs _);
            tail = insert-tail h q.tail null fresh v p w xs ys is.tail cut.1.3;
            entries = omega (
              arith,
              length-append {0} xs ((p, w) ∷ ys),
              length-append {0} xs ((p, w) ∷ ((fresh, v) ∷ ys)),
            );
            bounded = omega (
              arith,
              length-append {0} xs ((p, w) ∷ ys),
              length-append {0} xs ((p, w) ∷ ((fresh, v) ∷ ys)),
            );
            chain = insert-Holds h fresh v p w xs ys ne out is.chain;
          },
          λ a other outside.
              inserted_ne h fresh v p w _ a other (NotIn-split a xs ((p, w) ∷ ys) outside).1.0,
        )

  push_after-missing :
      (cs : Cells)
      → IsQueue h q cs
      → Misses (holding entry) cs
      → length cs + 1 < 2 ^ 32
      → queue_push_after fresh (some q) entry v h ≡ some ((false, some q), h)
  unfolding queue_push_after
  push_after-missing cs is all room = rw (
    is.head,
    find_entry-missing h entry (q.entries + 1) cs is.chain all (omega (arith, is.entries)),
  )

  push_after-Split :
      (cs : Cells)
      → IsQueue h q cs
      → length cs + 1 < 2 ^ 32
      → Split (holding entry) cs
      → Returns
          (λ (done, q') g.
            (done ≡ is_some (first_match (holding entry) cs))
            × Owns g q' (insert_behind (holding entry) (fresh, v) cs)
            × SameOutside fresh cs h g)
          (queue_push_after fresh (some q) entry v h)
  push_after-Split cs is room (missing all) =
      let same = missing_lem (holding entry) (fresh, v) cs all in
      rw (push_after-missing cs is all room, same.0, same.2) (refl, is, λ a other outside. refl)
  push_after-Split cs is room (found xs p w ys e all hit) =
      let same = found_lem (holding entry) (fresh, v) xs p w ys all hit in
      rw (e, same.0, same.2) (push_after-found xs p w ys (rw e at is) all hit (rw e at room))

  -- `queue_push_after` on a queue with room, given an unused address, puts the value directly
  -- behind the first entry that holds `entry`, and reports whether there was one; if there was none
  -- the queue is as it was. It writes only the new entry and the entries of the queue.
  pub push_after-Owns :
      (cs : Cells)
      → IsQueue h q cs
      → length cs + 1 < 2 ^ 32
      → Returns
          (λ (done, q') g.
            (done ≡ is_some (first_match (holding entry) cs))
            × Owns g q' (insert_behind (holding entry) (fresh, v) cs)
            × SameOutside fresh cs h g)
          (queue_push_after fresh (some q) entry v h)
  push_after-Owns cs is room = push_after-Split cs is room (split (holding entry) cs)
