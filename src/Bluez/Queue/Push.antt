-- ===== src/Bluez/Queue/Push.antt =====
-- `queue_push_tail` and `queue_push_head`: the new entry goes to the end that was asked for.
use minipro.Base.{
  ◌+◌, ◌^◌, ◌<◌, ◌≡◌, ◌≢◌, refl, sym, ◌∙◌, true, none, some, [], ◌∷◌, ◌++◌, arith, ◌==◌,
  if◌then◌else◌, length, length-append,
}
use minipro.Bluez.Queue.Store.{Ptr, null, Heap}
use minipro.Bluez.Queue.Cells.{
  Cells, last, Holds, IsQueue, Owns, Returns, SameOutside, NotIn-none, Holds-put, last-ne-null,
  load_last, Holds-relink, Holds-append, last-append_one, Disjoint-single, last-ne,
}
use minipro.Bluez.Queue.Access.{
  not_null, put_self, put_ne, allocate, entry_new_lem, set_next_lem, Holds-allocate, allocate_ne,
}
use minipro.Bluez.Queue.{Queue, queue_push_tail, queue_push_head}

push_head-tail :
    (h : Heap) (fresh t : Ptr) (cs : Cells)
    → t ≡ last null cs
    → Holds h null cs
    → (if t == null then fresh else t) ≡ last fresh cs
push_head-tail h fresh t [] e hold = ground arith
push_head-tail h fresh t ((a, d) ∷ cs) e hold =
    rw (e, not_null (last a cs) (last-ne-null h a null cs hold.0 hold.3))

-- `queue_push_head` on a queue with room, given an unused address, reports success and puts the
-- value in front of all others; it writes only the new entry.
pub push_head-Owns :
    (h : Heap) (q : Queue) (cs : Cells) (fresh v : Ptr)
    → IsQueue h q cs
    → fresh ≢ null
    → h fresh ≡ none
    → length cs + 1 < 2 ^ 32
    → Returns
        (λ (done, q') g. (done ≡ true) × Owns g q' ((fresh, v) ∷ cs) × SameOutside fresh [] h g)
        (queue_push_head fresh (some q) v h)
unfolding queue_push_head
push_head-Owns h q cs fresh v is ne unused room =
    let out = NotIn-none h fresh null cs unused is.chain in
    rw
      (
        entry_new_lem h fresh v ne,
        not_null fresh ne,
        set_next_lem (allocate h fresh v) fresh q.head v null ne (put_self _ fresh _),
      )
      (
        refl,
        record {
          head = refl;
          tail = push_head-tail h fresh q.tail cs is.tail is.chain;
          entries = omega arith;
          bounded = omega arith;
          chain = (
            ne,
            rw (put_self, is.head),
            out,
            Holds-put _ fresh null _ cs out (Holds-allocate h fresh v null cs out is.chain),
          );
        },
        λ a other _. put_ne _ fresh a _ other ∙ allocate_ne h fresh v a other,
      )

push_tail_nil :
    (h : Heap) (q : Queue) (fresh v : Ptr)
    → IsQueue h q []
    → fresh ≢ null
    → Returns
        (λ (done, q') g. (done ≡ true) × Owns g q' ((fresh, v) ∷ []) × SameOutside fresh [] h g)
        (queue_push_tail fresh (some q) v h)
unfolding queue_push_tail
push_tail_nil h q fresh v is ne =
    rw (entry_new_lem h fresh v ne, not_null fresh ne, is.tail, is.head)
      (
        refl,
        record {
          head = refl;
          tail = refl;
          entries = omega arith;
          bounded = omega arith;
          chain = (ne, put_self _ fresh _, tt, tt);
        },
        λ a other _. allocate_ne h fresh v a other,
      )

push_tail_cons :
    (h : Heap) (q : Queue) (a d fresh v : Ptr) (cs : Cells)
    → IsQueue h q ((a, d) ∷ cs)
    → fresh ≢ null
    → h fresh ≡ none
    → length cs + 2 < 2 ^ 32
    → Returns
        (λ (done, q') g.
          (done ≡ true)
          × Owns g q' ((a, d) ∷ cs ++ (fresh, v) ∷ [])
          × SameOutside fresh ((a, d) ∷ cs) h g)
        (queue_push_tail fresh (some q) v h)
unfolding queue_push_tail
push_tail_cons h q a d fresh v cs is ne unused room =
    let out = NotIn-none h fresh null ((a, d) ∷ cs) unused is.chain in
    let grown = Holds-allocate h fresh v null ((a, d) ∷ cs) out is.chain in
    let tail_ne = last-ne-null h a null cs is.chain.0 is.chain.3 in
    rw
      (
        entry_new_lem h fresh v ne,
        not_null fresh ne,
        is.tail,
        not_null (last a cs) tail_ne,
        set_next_lem (allocate h fresh v) (last a cs) fresh _ null tail_ne
            (load_last _ a d null cs grown),
        is.head,
        not_null a is.chain.0,
      )
      (
        refl,
        record {
          head = refl;
          tail = sym (last-append_one a fresh v cs);
          entries = omega (arith, length-append {0} cs ((fresh, v) ∷ []));
          bounded = omega (arith, length-append {0} cs ((fresh, v) ∷ []));
          chain =
              Holds-append _ null ((a, d) ∷ cs) ((fresh, v) ∷ [])
                (Holds-relink (allocate h fresh v) a d null fresh cs grown)
                (
                  ne,
                  put_ne _ (last a cs) fresh _ (last-ne fresh a cs out.0 out.1)
                      ∙ put_self _ fresh _,
                  tt,
                  tt,
                )
                (Disjoint-single fresh v ((a, d) ∷ cs) out);
        },
        λ b other outb.
            put_ne _ (last a cs) b _ (last-ne b a cs outb.0 outb.1) ∙ allocate_ne h fresh v b other,
      )

-- `queue_push_tail` on a queue with room, given an unused address, reports success and appends the
-- value behind all others; it writes only the new entry and the entries of the queue.
pub push_tail-Owns :
    (h : Heap) (q : Queue) (cs : Cells) (fresh v : Ptr)
    → IsQueue h q cs
    → fresh ≢ null
    → h fresh ≡ none
    → length cs + 1 < 2 ^ 32
    → Returns
        (λ (done, q') g.
          (done ≡ true) × Owns g q' (cs ++ (fresh, v) ∷ []) × SameOutside fresh cs h g)
        (queue_push_tail fresh (some q) v h)
push_tail-Owns h q [] fresh v is ne unused room = push_tail_nil h q fresh v is ne
push_tail-Owns h q ((a, d) ∷ cs) fresh v is ne unused room =
    push_tail_cons h q a d fresh v cs is ne unused (omega arith)
