-- ===== src/Bluez/Queue/Tests.antt =====
-- Runs of lib/bluez/queue.c on a queue of two entries, and the theorems applied to it.
use minipro.Base.{
  ◌≡◌, refl, Bool, true, Option, none, some, List, [], ◌∷◌, ◌++◌, arith, ◌==◌, if◌then◌else◌,
  length,
}
use minipro.Bluez.Queue.Store.{Ptr, null, Heap}
use minipro.Bluez.Queue.Cells.{Cells, linked, values, IsQueue, Owns, Returns, SameOutside}
use minipro.Bluez.Queue.Split.{first_match}
use minipro.Bluez.Queue.{
  Queue, queue_push_tail, queue_peek_head, queue_peek_tail, queue_find, queue_length, queue_isempty,
}
use minipro.Bluez.Queue.Push.{push_tail-Owns}
use minipro.Bluez.Queue.Read.{head_value, tail_value, readers_lem}
use minipro.Bluez.Queue.Removal.{or_null, queue_remove_if, queue_destroy}
use minipro.Bluez.Queue.Removal.Remove.{RemovedFrom, queue_remove_if-Removed}
use minipro.Bluez.Queue.Removal.Clear.{Cleared, queue_destroy-Cleared}
use minipro.Bluez.Queue.Foreach.{Scene, queue_foreach, visit_all, queue_foreach-visit_all}

abbrev two_heap : Heap
two_heap a = if a == 10 then some (linked 7 20) else if a == 20 then some (linked 8 null) else none

abbrev two_queue : Queue
two_queue = record { ref_count = 1; head = 10; tail = 20; entries = 2 }

abbrev two_cells : Cells
two_cells = (10, 7) ∷ (20, 8) ∷ []

two_IsQueue : IsQueue two_heap two_queue two_cells
two_IsQueue = record {
  head = refl;
  tail = refl;
  entries = refl;
  bounded = omega arith;
  chain = (
    (λ e. absurd (omega arith)),
    refl,
    ((λ e. absurd (omega arith)), tt),
    ((λ e. absurd (omega arith)), refl, tt, tt),
  );
}

abbrev is_eight : Ptr → Bool
is_eight v = v == 8

-- a `destroy` that notes what it is given
abbrev note : Option (Ptr → List Ptr → List Ptr)
note = some (λ v w. v ∷ w)

abbrev no_change : Ptr → Scene (List Ptr) → Option (Scene (List Ptr))
no_change v s = some (record s { user = v ∷ s.user })

push_tail-Owns_example :
    Returns
      (λ (done, q') g.
        (done ≡ true) × Owns g q' (two_cells ++ (30, 9) ∷ []) × SameOutside 30 two_cells two_heap g)
      (queue_push_tail 30 (some two_queue) 9 two_heap)
push_tail-Owns_example =
    push_tail-Owns two_heap two_queue two_cells 30 9 two_IsQueue (λ e. absurd (omega arith)) refl
      (omega arith)

readers_lem_example :
    (queue_peek_head (some two_queue) two_heap ≡ some (head_value two_cells, two_heap))
    × (queue_peek_tail (some two_queue) two_heap ≡ some (tail_value two_cells, two_heap))
    × (queue_find (some two_queue) is_eight two_heap
        ≡ some (or_null (first_match is_eight two_cells), two_heap))
    × (queue_length (some two_queue) ≡ length two_cells)
    × (queue_isempty (some two_queue) ≡ (length two_cells == 0))
readers_lem_example = readers_lem two_heap two_queue two_cells is_eight two_IsQueue

queue_remove_if-Removed_example :
    Returns
      (λ (out, q') g.
        (out ≡ or_null (first_match is_eight two_cells))
        × RemovedFrom is_eight two_heap two_queue two_cells (first_match is_eight two_cells) q' g)
      (queue_remove_if (some two_queue) (some is_eight) two_heap)
queue_remove_if-Removed_example =
    queue_remove_if-Removed two_heap two_queue two_cells two_IsQueue is_eight

queue_destroy-Cleared_example :
    Returns
      (λ (q', w') g. (q' ≡ none) × Cleared note two_heap two_cells [] w' g)
      (queue_destroy note (some two_queue) [] two_heap)
queue_destroy-Cleared_example =
    queue_destroy-Cleared note two_heap two_queue two_cells [] two_IsQueue (omega arith)
      (omega arith)

queue_foreach-visit_all_example :
    (t : Scene (List Ptr)) × (queue_foreach no_change 3
        (record { heap = two_heap; queue = two_queue; user = [] })
      ≡ some (t, some two_queue))
    × (t.heap ≡ two_heap)
    × (t.user ≡ visit_all (λ v u. v ∷ u) (values two_cells) [])
queue_foreach-visit_all_example =
    queue_foreach-visit_all (λ v u. v ∷ u) no_change (λ v h q u. refl) two_heap two_queue []
      two_cells two_IsQueue (omega arith) (omega arith)
