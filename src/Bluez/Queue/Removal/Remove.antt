-- ===== src/Bluez/Queue/Removal/Remove.antt =====
-- `queue_remove` and `queue_remove_if`.
use minipro.Base.{◌≡◌, refl, Bool, Option, none, some, ◌==◌, is_some}
use minipro.Bluez.Queue.Store.{Ptr, Heap}
use minipro.Bluez.Queue.Cells.{Cells, IsQueue, Returns, Returns-resume}
use minipro.Bluez.Queue.Split.{first_match}
use minipro.Bluez.Queue.{Queue}
use minipro.Bluez.Queue.Removal.{remove_where, queue_remove, queue_remove_if, or_null}
use minipro.Bluez.Queue.Removal.Unlink.{Removed, remove_where-Removed}

-- the same of a queue pointer
abbrev pub RemovedFrom :
    (Ptr → Bool) → Heap → Queue → Cells → Option Ptr → Option Queue → Heap → Type 0
RemovedFrom matches h q cs out none g = ⊥
RemovedFrom matches h q cs out (some q') g = Removed matches h q cs out q' g

module _ (h : Heap) (q : Queue) (cs : Cells) (is : IsQueue h q cs) where
  -- `queue_remove` takes out and frees the first entry that holds `value`, and reports whether there
  -- was one.
  pub queue_remove-Removed :
      (value : Ptr)
      → Returns
          (λ (done, q') g.
            (done ≡ is_some (first_match (λ v. v == value) cs))
            × RemovedFrom (λ v. v == value) h q cs (first_match (λ v. v == value) cs) q' g)
          (queue_remove (some q) value h)
  unfolding queue_remove
  queue_remove-Removed value =
      Returns-resume (λ (out, q') g. Removed (λ v. v == value) h q cs out q' g) _
        (remove_where (λ v. v == value) q h) _ (remove_where-Removed (λ v. v == value) h q cs is)
        λ r g got. rw got.value (refl, rw got.value at got)

  -- `queue_remove_if` takes out and frees the first entry whose value matches, and hands the value
  -- over, or NULL if there is none.
  pub queue_remove_if-Removed :
      (matches : Ptr → Bool)
      → Returns
          (λ (out, q') g.
            (out ≡ or_null (first_match matches cs))
            × RemovedFrom matches h q cs (first_match matches cs) q' g)
          (queue_remove_if (some q) (some matches) h)
  unfolding queue_remove_if
  queue_remove_if-Removed matches =
      Returns-resume (λ (out, q') g. Removed matches h q cs out q' g) _ (remove_where matches q h) _
        (remove_where-Removed matches h q cs is) λ r g got. rw got.value (refl, rw got.value at got)
