-- ===== src/Bluez/Queue/Removal/Clear.antt =====
-- `queue_remove_all` without a `function`, and `queue_destroy`.
use minipro.Base.{
  ℕ, zero, suc, ◌+◌, ◌-◌, ◌^◌, ◌<◌, ◌≡◌, refl, ◌∙◌, Option, none, some, [], ◌∷◌, arith, ◌==◌,
  if◌then◌else◌, length,
}
use minipro.Bluez.Queue.Store.{Ptr, null, Heap}
use minipro.Bluez.Queue.Cells.{
  Cells, first, values, NotIn, Holds, IsQueue, Owns, Returns, Freed, Returns-resume, Returns-mono,
}
use minipro.Bluez.Queue.Access.{
  not_null, load_lem, put_self, release, entry_unref_lem, Holds-release, release_ne,
}
use minipro.Bluez.Queue.{Queue, queue_unref}
use minipro.Bluez.Queue.Removal.{call_destroy, clear_loop, queue_remove_all, queue_destroy}
use minipro.Bluez.Queue.Removal.All.{destroy_all, increment_lem}

-- The loop without `function` visits and frees every entry.
clear_loop_lem :
    {W : Type 0} (destroy : Option (Ptr → W → W)) (k : ℕ) (h : Heap) (entry : Ptr) (cs : Cells)
    (count : ℕ) (w : W)
    → entry ≡ first null cs
    → Holds h null cs
    → length cs < k
    → count + length cs < 2 ^ 32
    → Returns
        (λ (c, w') g.
          (c ≡ count + length cs)
          × (w' ≡ destroy_all destroy (values cs) w)
          × Freed g [] cs
          × ((a : Ptr) → NotIn a cs → g a ≡ h a))
        (clear_loop destroy k entry count w h)
unfolding clear_loop destroy_all
clear_loop_lem destroy zero h entry cs count w e hold fuel room = absurd (omega arith)
clear_loop_lem destroy (suc k) h entry [] count w e hold fuel room =
    rw e (omega arith, refl, tt, λ a _. refl)
clear_loop_lem destroy (suc k) h entry ((a, v) ∷ cs) count w e hold fuel room =
    let n = first null cs in
    rw
      (
        e,
        not_null a hold.0,
        load_lem h a _ hold.0 hold.1,
        entry_unref_lem h a v n hold.0 hold.1,
        increment_lem count (omega arith),
      )
      (Returns-mono _ _
        (clear_loop destroy k n (suc count) (call_destroy destroy v w) (release h a v n))
        (clear_loop_lem destroy k (release h a v n) n cs (suc count) (call_destroy destroy v w) refl
          (Holds-release h a v n null cs hold.2 hold.3) (omega arith) (omega arith))
        λ (c, w') g got. (
          omega (arith, got.0),
          got.1,
          ((λ _. got.3 a hold.2 ∙ put_self _ a none), got.2),
          λ b out. got.3 b out.1 ∙ release_ne h a v n b out.0,
        ))

unref_emptied :
    (q : Queue)
    → 0 < q.ref_count
    → q.ref_count < 2 ^ 31
    → queue_unref (record q { head = null; tail = null; entries = 0 }) ≡ (
        if q.ref_count == 1
        then none
        else some (record { ref_count = q.ref_count - 1; head = null; tail = null; entries = 0 }))
unfolding queue_unref
unref_emptied q held small = ground arith

-- What emptying a queue of `cs` does to memory and to the world.
pub record Cleared {W : Type 0} (destroy : Option (Ptr → W → W)) (h : Heap) (cs : Cells) (w w' : W)
    (g : Heap) : Type 0 where
  pub destroyed : w' ≡ destroy_all destroy (values cs) w
  pub freed : Freed g [] cs
  pub outside : (a : Ptr) → NotIn a cs → g a ≡ h a

-- `queue_remove_all` without a `function` frees every entry, calls `destroy` on each value in order,
-- returns their number and leaves an empty queue that keeps its reference count.
pub queue_remove_all-Cleared :
    {W : Type 0} (destroy : Option (Ptr → W → W)) (h : Heap) (q : Queue) (cs : Cells) (w : W)
    → IsQueue h q cs
    → Returns
        (λ (c, q', w') g.
          (c ≡ length cs)
          × Owns g q' []
          × (q' ≡ some (record q { head = null; tail = null; entries = 0 }))
          × Cleared destroy h cs w w' g)
        (queue_remove_all destroy (some q) none w h)
unfolding queue_remove_all
queue_remove_all-Cleared {W} destroy h q cs w is =
    Returns-resume
      (λ (c, w') g.
        (c ≡ length cs)
        × (w' ≡ destroy_all destroy (values cs) w)
        × Freed g [] cs
        × ((a : Ptr) → NotIn a cs → g a ≡ h a))
      _ (clear_loop destroy (q.entries + 1) q.head 0 w h) _
      (Returns-mono _ _ (clear_loop destroy (q.entries + 1) q.head 0 w h)
        (clear_loop_lem destroy (q.entries + 1) h q.head cs 0 w is.head is.chain
          (omega (arith, is.entries)) (omega (arith, is.bounded)))
        λ (c, w') g got. (omega (arith, got.0), got.1, got.2, got.3))
      λ (c, w') g got. (
        got.0,
        record { head = refl; tail = refl; entries = refl; bounded = omega arith; chain = tt },
        refl,
        record { destroyed = got.1; freed = got.2; outside = got.3 },
      )

-- `queue_destroy` of a well-formed queue with references to it, as many as an `int` counts, frees every entry and calls
-- `destroy`, if there is one, on each value in order; memory apart from the entries stays as it is. It
-- frees a queue to which nobody else holds a reference, and one with more references is left empty
-- with one reference less.
pub queue_destroy-Cleared :
    {W : Type 0} (destroy : Option (Ptr → W → W)) (h : Heap) (q : Queue) (cs : Cells) (w : W)
    → IsQueue h q cs
    → 0 < q.ref_count
    → q.ref_count < 2 ^ 31
    → Returns
        (λ (q', w') g.
          (q' ≡ (
            if q.ref_count == 1
            then none
            else some
                (record { ref_count = q.ref_count - 1; head = null; tail = null; entries = 0 })))
          × Cleared destroy h cs w w' g)
        (queue_destroy destroy (some q) w h)
unfolding queue_destroy
queue_destroy-Cleared destroy h q cs w is held small =
    Returns-resume _ _ (queue_remove_all destroy (some q) none w h) _
      (queue_remove_all-Cleared destroy h q cs w is)
      λ (c, q', w') g got. rw got.2 (unref_emptied q held small, got.3)
