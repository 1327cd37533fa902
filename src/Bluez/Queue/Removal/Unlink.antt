-- ===== src/Bluez/Queue/Removal/Unlink.antt =====
-- Taking out one entry: `queue_remove` and `queue_remove_if`.
use minipro.Base.{
  ℕ, zero, suc, ◌+◌, ◌<◌, ◌≡◌, refl, sym, ◌∙◌, Bool, true, Option, none, some, [], ◌∷◌, ◌++◌,
  append-nil, arith, ◌==◌, if◌then◌else◌, length, length-append,
}
use minipro.Bluez.Queue.Store.{Ptr, null, Heap, put, resume, pure}
use minipro.Bluez.Queue.Cells.{
  Cells, linked, first, last, last_value, NotIn, Holds, IsQueue, Returns, SameOutside, Holds-put,
  Holds-append, Holds-relink, last-ne, last-ne-null, load_last, last-append, last-NotIn,
  Returns-resume, Returns-mono, Freed,
}
use minipro.Bluez.Queue.Access.{
  not_null, load_lem, put_self, put_ne, set_next_lem, entry_unref_lem, Holds-release, release_ne,
}
use minipro.Bluez.Queue.Split.{
  Misses, Split, missing, found, first_match, without, split, missing_lem, found_lem, NotIn-split,
  Holds-split, NotIn-Disjoint, Freed-self, Freed-erase,
}
use minipro.Bluez.Queue.{Queue}
use minipro.Bluez.Queue.Removal.{unlink, remove_loop, remove_where}

-- What taking `p` out from between `xs` and `ys` leaves: the rest in order, `p` freed, the reference
-- count and all other memory as they were.
pub record Unlinked (h : Heap) (q : Queue) (xs : Cells) (p : Ptr) (ys : Cells) (q' : Queue)
    (g : Heap) : Type 0 where
  pub rest : IsQueue g q' (xs ++ ys)
  pub references : q'.ref_count ≡ q.ref_count
  pub freed : g p ≡ none
  pub outside : SameOutside p xs h g

unlink-tail :
    (h : Heap) (t d p v : Ptr) (xs ys : Cells)
    → t ≡ last d (xs ++ ((p, v) ∷ ys))
    → Holds h null ys
    → (if first null ys == null then last d xs else t) ≡ last d (xs ++ ys)
unlink-tail h t d p v xs [] e hold = rw append-nil
unlink-tail h t d p v xs ((b, w) ∷ ys) e hold =
    rw (not_null b hold.0) (e ∙ (last-append d p v xs _ ∙ sym (last-append d b w xs ys)))

module _ (h : Heap) (q : Queue) (p v : Ptr) (ys : Cells) where
  unlink_first : IsQueue h q ((p, v) ∷ ys) → Returns (Unlinked h q [] p ys) (unlink null p q h)
  unfolding unlink
  unlink_first is =
      rw
        (
          load_lem h p _ is.chain.0 is.chain.1,
          entry_unref_lem h p v (first null ys) is.chain.0 is.chain.1,
        )
        (record {
          rest = record {
            head = refl;
            tail = unlink-tail h q.tail null p v [] ys is.tail is.chain.3;
            entries = omega (arith, is.entries, is.bounded);
            bounded = omega (arith, is.bounded);
            chain = Holds-release h p v (first null ys) null ys is.chain.2 is.chain.3;
          };
          references = refl;
          freed = put_self _ p none;
          outside = λ a other _. release_ne h p v (first null ys) a other;
        })

  unlink_later :
      (a d : Ptr) (xs : Cells)
      → IsQueue h q ((a, d) ∷ (xs ++ ((p, v) ∷ ys)))
      → Returns (Unlinked h q ((a, d) ∷ xs) p ys) (unlink (last a xs) p q h)
  unfolding unlink
  unlink_later a d xs is =
      let cut = Holds-split h null ((a, d) ∷ xs) ((p, v) ∷ ys) is.chain in
      let apart = NotIn-Disjoint p v ((a, d) ∷ xs) ys cut.2 in
      let ne = last-ne-null h a p xs cut.0.0 cut.0.3 in
      let other = last-ne p a xs apart.0.0 apart.0.1 in
      let n = first null ys in
      let moved : Heap = put h (last a xs) (some (linked (last_value d xs) n)) in
      rw
        (
          load_lem h p _ cut.1.0 cut.1.1,
          not_null (last a xs) ne,
          set_next_lem h (last a xs) n _ p ne (load_last h a d p xs cut.0),
          entry_unref_lem moved p v n cut.1.0 (put_ne h (last a xs) p _ other ∙ cut.1.1),
        )
        (record {
          rest = record {
            head = is.head;
            tail = unlink-tail h q.tail a p v xs ys is.tail cut.1.3;
            entries = omega (
              arith,
              is.entries,
              is.bounded,
              length-append {0} xs ((p, v) ∷ ys),
              length-append {0} xs ys,
            );
            bounded =
                omega
                  (arith, is.bounded, length-append {0} xs ((p, v) ∷ ys), length-append {0} xs ys);
            chain =
                Holds-append _ null ((a, d) ∷ xs) ys
                  (Holds-release moved p v n n ((a, d) ∷ xs) apart.0
                    (Holds-relink h a d p n xs cut.0))
                  (Holds-release moved p v n null ys cut.1.2
                    (Holds-put h (last a xs) null _ ys (last-NotIn a d xs ys apart.1) cut.1.3))
                  apart.1;
          };
          references = refl;
          freed = put_self _ p none;
          outside = λ b else_ outb.
              release_ne moved p v n b else_
              ∙ put_ne h (last a xs) b _ (last-ne b a xs outb.0 outb.1);
        })

  unlink_lem :
      (xs : Cells)
      → IsQueue h q (xs ++ ((p, v) ∷ ys))
      → Returns (Unlinked h q xs p ys) (unlink (last null xs) p q h)
  unlink_lem [] is = unlink_first is
  unlink_lem ((a, d) ∷ xs) is = unlink_later a d xs is

module _ (matches : Ptr → Bool) (h : Heap) (q : Queue) where
  remove_loop-found :
      (k : ℕ) (d entry : Ptr) (xs : Cells) (p v : Ptr) (ys : Cells)
      → entry ≡ first null (xs ++ ((p, v) ∷ ys))
      → Holds h null (xs ++ ((p, v) ∷ ys))
      → Misses matches xs
      → matches v ≡ true
      → length xs < k
      → remove_loop matches k d entry q h
        ≡ resume (unlink (last d xs) p q h) (λ q'. pure (some v, q'))
  unfolding remove_loop
  remove_loop-found zero d entry xs p v ys e hold all hit fuel = absurd (omega arith)
  remove_loop-found (suc k) d entry [] p v ys e hold all hit fuel =
      rw (e, not_null p hold.0, load_lem h p _ hold.0 hold.1, hit)
  remove_loop-found (suc k) d entry ((a, w) ∷ xs) p v ys e hold all hit fuel =
      rw (e, not_null a hold.0, load_lem h a _ hold.0 hold.1, all.0)
        (remove_loop-found k a _ xs p v ys refl hold.3 all.1 hit (omega arith))

  remove_loop-missing :
      (k : ℕ) (d entry : Ptr) (cs : Cells)
      → entry ≡ first null cs
      → Holds h null cs
      → Misses matches cs
      → length cs < k
      → remove_loop matches k d entry q h ≡ some ((none, q), h)
  unfolding remove_loop
  remove_loop-missing zero d entry cs e hold all fuel = absurd (omega arith)
  remove_loop-missing (suc k) d entry [] e hold all fuel = rw e
  remove_loop-missing (suc k) d entry ((a, w) ∷ cs) e hold all fuel =
      rw (e, not_null a hold.0, load_lem h a _ hold.0 hold.1, all.0)
        (remove_loop-missing k a _ cs refl hold.3 all.1 (omega arith))

  pub remove_where-missing :
      (cs : Cells)
      → IsQueue h q cs
      → Misses matches cs
      → remove_where matches q h ≡ some ((none, q), h)
  unfolding remove_where
  remove_where-missing cs is all =
      remove_loop-missing (q.entries + 1) null q.head cs is.head is.chain all
        (omega (arith, is.entries))

  pub remove_where-found :
      (xs : Cells) (p v : Ptr) (ys : Cells)
      → IsQueue h q (xs ++ ((p, v) ∷ ys))
      → Misses matches xs
      → matches v ≡ true
      → Returns
          (λ (out, q') g. (out ≡ some v) × Unlinked h q xs p ys q' g)
          (remove_where matches q h)
  unfolding remove_where
  remove_where-found xs p v ys is all hit =
      rw
        (remove_loop-found (q.entries + 1) null q.head xs p v ys is.head is.chain all hit
          (omega (arith, is.entries, length-append {0} xs ((p, v) ∷ ys))))
        (Returns-resume (Unlinked h q xs p ys) _ (unlink (last null xs) p q h) _
          (unlink_lem h q p v ys xs is) (λ q' g got. (refl, got)))

-- What `remove_where` does to a queue of `cs`.
pub record Removed (matches : Ptr → Bool) (h : Heap) (q : Queue) (cs : Cells) (out : Option Ptr)
    (q' : Queue) (g : Heap) : Type 0 where
  pub value : out ≡ first_match matches cs
  pub rest : IsQueue g q' (without matches cs)
  pub references : q'.ref_count ≡ q.ref_count
  pub freed : Freed g (without matches cs) cs
  pub outside : (a : Ptr) → NotIn a cs → g a ≡ h a

module _ (matches : Ptr → Bool) (h : Heap) (q : Queue) (cs : Cells) (is : IsQueue h q cs) where
  remove_where-Split :
      Split matches cs
      → Returns (λ (out, q') g. Removed matches h q cs out q' g) (remove_where matches q h)
  remove_where-Split (missing all) =
      let same = missing_lem matches (0, 0) cs all in
      rw (remove_where-missing matches h q cs is all) (record {
        value = sym same.0;
        rest = rw same.1 is;
        references = refl;
        freed = rw same.1 (Freed-self h cs);
        outside = λ a _. refl;
      })
  remove_where-Split (found xs p v ys e all hit) =
      let same = found_lem matches (0, 0) xs p v ys all hit in
      rw e (
        Returns-mono _ _ (remove_where matches q h)
          (remove_where-found matches h q xs p v ys (rw e at is) all hit)
          λ r g got. record {
            value = got.0 ∙ sym same.0;
            rest = rw same.1 got.1.rest;
            references = got.1.references;
            freed = rw same.1 (Freed-erase g xs p v ys got.1.freed);
            outside = λ a out.
                let apart = NotIn-split a xs ((p, v) ∷ ys) out in got.1.outside a apart.1.0 apart.0;
          })

  -- The loop of `queue_remove` and `queue_remove_if` takes out and frees the first entry that matches
  -- and no other, hands over its value, and keeps the order and the links of the rest; without a match
  -- it changes nothing. It touches no memory outside the queue.
  pub remove_where-Removed :
      Returns (λ (out, q') g. Removed matches h q cs out q' g) (remove_where matches q h)
  remove_where-Removed = remove_where-Split (split matches cs)
