-- ===== src/Bluez/Queue/Removal/All.antt =====
-- `queue_remove_all` with a `function`.
use minipro.Base.{
  ℕ, zero, suc, ◌+◌, ◌^◌, ◌<◌, ◌≡◌, refl, sym, ap, ◌∙◌, ◌⊎◌, inl, inr, Bool, true, false, Option,
  none, some, List, [], ◌∷◌, arith, ◌==◌, ==_iff, if◌then◌else◌, length, Bool-cases, Option-cases,
}
use minipro.Bluez.Queue.Store.{Ptr, null, Heap, increment}
use minipro.Bluez.Queue.Cells.{Cells, NotIn, IsQueue, Returns, Freed, Returns-resume, Returns-mono}
use minipro.Bluez.Queue.Access.{not_null}
use minipro.Bluez.Queue.Split.{first_match, without}
use minipro.Bluez.Queue.{Queue}
use minipro.Bluez.Queue.Removal.{remove_where, call_destroy, remove_all_loop, queue_remove_all}
use minipro.Bluez.Queue.Removal.Unlink.{Removed, remove_where-Removed}

-- the values that match, and the entries that do not, in order
module _ (matches : Ptr → Bool) where
  unfoldable pub matching : Cells → List Ptr
  matching [] = []
  matching ((a, v) ∷ cs) = if matches v then v ∷ matching cs else matching cs

  unfoldable pub remaining : Cells → Cells
  remaining [] = []
  remaining ((a, v) ∷ cs) = if matches v then remaining cs else (a, v) ∷ remaining cs

  matching-none :
      (cs : Cells)
      → first_match matches cs ≡ none
      → (matching cs ≡ []) × (remaining cs ≡ cs) × (without matches cs ≡ cs)
  unfolding first_match matching remaining without
  matching-none [] e = (refl, refl, refl)
  matching-none ((a, v) ∷ cs) e = ground (arith, matching-none cs)

  matching-some :
      (cs : Cells) (v : Ptr)
      → first_match matches cs ≡ some v
      → (matching cs ≡ v ∷ matching (without matches cs))
        × (remaining (without matches cs) ≡ remaining cs)
        × (length cs ≡ suc (length (without matches cs)))
  unfolding first_match matching remaining without
  matching-some [] v e = cc
  matching-some ((a, w) ∷ cs) v e = ground (arith, matching-some cs v)

-- `destroy` called on each value in turn
unfoldable pub destroy_all : {W : Type 0} → Option (Ptr → W → W) → List Ptr → W → W
destroy_all destroy [] w = w
destroy_all destroy (v ∷ vs) w = destroy_all destroy vs (call_destroy destroy v w)

module _ (g : Heap) (kept : Cells) where
  Freed-or_NotIn :
      (a : Ptr) (cs : Cells) → NotIn a cs ⊎ (Freed g kept cs → NotIn a kept → g a ≡ none)
  Freed-or_NotIn a [] = inl tt
  Freed-or_NotIn a ((b, v) ∷ cs) = join (Bool-cases (a == b)) (Freed-or_NotIn a cs)
    where
      join :
          ((a == b) ≡ true) ⊎ ((a == b) ≡ false)
          → NotIn a cs ⊎ (Freed g kept cs → NotIn a kept → g a ≡ none)
          → NotIn a ((b, v) ∷ cs) ⊎ (Freed g kept ((b, v) ∷ cs) → NotIn a kept → g a ≡ none)
      join (inl e) rest =
          inr (λ all out. rw ((==_iff a b).0 e) (all.0 (rw ((==_iff a b).0 e) at out)))
      join (inr e) (inl out) = inl ((λ same. ground arith), out)
      join (inr e) (inr gone) = inr (λ all. gone all.1)

  Freed-trans :
      (h : Heap) (mid cs : Cells)
      → Freed h mid cs
      → Freed g kept mid
      → ((a : Ptr) → NotIn a mid → g a ≡ h a)
      → Freed g kept cs
  Freed-trans h mid [] before later same = tt
  Freed-trans h mid ((a, v) ∷ cs) before later same =
      (pick (Freed-or_NotIn a mid), Freed-trans h mid cs before.1 later same)
    where
      pick :
          NotIn a mid ⊎ (Freed g kept mid → NotIn a kept → g a ≡ none) → NotIn a kept → g a ≡ none
      pick (inl out) k = same a out ∙ before.0 out
      pick (inr gone) k = gone later k

differ : (a b : ℕ) → b < a → (a == b) ≡ false
differ a b h = ground arith

pub increment_lem : (n : ℕ) → n + 1 < 2 ^ 32 → increment n ≡ suc n
increment_lem n h = omega arith

NotIn-without :
    (matches : Ptr → Bool) (a : Ptr) (cs : Cells) → NotIn a cs → NotIn a (without matches cs)
unfolding without
NotIn-without matches a [] out = tt
NotIn-without matches a ((b, v) ∷ cs) out = ground (arith, NotIn-without matches a cs)

module _ {W : Type 0} (destroy : Option (Ptr → W → W)) (matches : Ptr → Bool) where
  -- What removing every match from a queue of `cs` leaves, counting from `count` in the world `w`.
  pub record AllRemoved (h : Heap) (q : Queue) (cs : Cells) (count : ℕ) (w : W) (c : ℕ) (q' : Queue)
      (w' : W) (g : Heap) : Type 0 where
    pub counted : c ≡ count + length (matching matches cs)
    pub rest : IsQueue g q' (remaining matches cs)
    pub references : q'.ref_count ≡ q.ref_count
    pub destroyed : ◌≡◌ {A = W} w' (destroy_all destroy (matching matches cs) w)
    pub freed : Freed g (remaining matches cs) cs
    pub outside : (a : Ptr) → NotIn a cs → g a ≡ h a

  module _ (h : Heap) (q : Queue) (cs : Cells) (count : ℕ) (w : W) where
    nothing_left :
        (r : Queue) (g : Heap)
        → Removed matches h q cs none r g
        → AllRemoved h q cs count w count r w g
    unfolding destroy_all
    nothing_left r g got =
        let same = matching-none matches cs (sym got.value) in
        record {
          counted = rw same.0 (omega arith);
          rest = rw same.1 (rw same.2 at got.rest);
          references = got.references;
          destroyed = rw same.0 refl;
          freed = rw same.1 (rw same.2 at got.freed);
          outside = got.outside;
        }

    one_more :
        (v : Ptr) (r : Queue) (mid : Heap)
        → Removed matches h q cs (some v) r mid
        → (c : ℕ) (q' : Queue) (w' : W) (g : Heap)
        → AllRemoved mid r (without matches cs) (suc count) (call_destroy destroy v w) c q' w' g
        → AllRemoved h q cs count w c q' w' g
    unfolding destroy_all
    one_more v r mid got c q' w' g later =
        let same = matching-some matches cs v (sym got.value) in
        record {
          counted = rw same.0 (omega (arith, later.counted));
          rest = rw same.1 at later.rest;
          references = later.references ∙ got.references;
          destroyed = rw same.0 later.destroyed;
          freed =
              Freed-trans g (remaining matches cs) mid (without matches cs) cs got.freed
                (rw same.1 at later.freed) later.outside;
          outside = λ a out. later.outside a (NotIn-without matches a cs out) ∙ got.outside a out;
        }

  remove_all_loop-AllRemoved :
      (k : ℕ) (h : Heap) (q : Queue) (cs : Cells) (count : ℕ) (w : W)
      → IsQueue h q cs
      → length cs < k
      → count + length cs < 2 ^ 32
      → Returns
          (λ (c, q', w') g. AllRemoved h q cs count w c q' w' g)
          (remove_all_loop destroy matches k q count w h)
  unfolding remove_all_loop
  remove_all_loop-AllRemoved zero h q cs count w is fuel room = absurd (omega arith)
  remove_all_loop-AllRemoved (suc k) h q cs count w is fuel room =
      Returns-resume (λ (out, r) g. Removed matches h q cs out r g) _ (remove_where matches q h) _
        (remove_where-Removed matches h q cs is)
        λ (out, r) g got. elim (Option-cases out) [
          | inl e ↦
              let last_one : Removed matches h q cs none r g = rw e at got in
              let same = matching-none matches cs (sym last_one.value) in
              rw
                ((==_iff q.entries r.entries).1
                  (is.entries ∙ (ap (length {A = Ptr × Ptr}) (sym same.2) ∙ sym got.rest.entries)))
                (nothing_left h q cs count w r g last_one)
          | inr (v, e) ↦
              let hit : Removed matches h q cs (some v) r g = rw e at got in
              let fewer = (matching-some matches cs v (sym hit.value)).2 in
              rw
                (
                  differ q.entries r.entries (omega (arith, fewer, is.entries, got.rest.entries)),
                  increment_lem count (omega (arith, fewer)),
                  e,
                )
                (Returns-mono _ _
                  (remove_all_loop destroy matches k r (suc count) (call_destroy destroy v w) g)
                  (remove_all_loop-AllRemoved k g r (without matches cs) (suc count)
                    (call_destroy destroy v w) got.rest (omega (arith, fewer))
                    (omega (arith, fewer)))
                  λ (c, q', w') f later. one_more h q cs count w v r g hit c q' w' f later)
        ]

-- `queue_remove_all` with a `function` frees exactly the entries that match, calls `destroy` on the
-- value of each in their order, returns their number, keeps the others in order, and touches no
-- memory outside the queue.
pub queue_remove_all-AllRemoved :
    {W : Type 0} (destroy : Option (Ptr → W → W)) (matches : Ptr → Bool) (h : Heap) (q : Queue)
    (cs : Cells) (w : W)
    → IsQueue h q cs
    → Returns
        (λ (c, q', w') g. elim q' [
          | none ↦ ⊥
          | some r ↦ AllRemoved destroy matches h q cs 0 w c r w' g
        ])
        (queue_remove_all destroy (some q) (some matches) w h)
unfolding queue_remove_all matching remaining destroy_all
queue_remove_all-AllRemoved destroy matches h q [] w is =
    let empty : (q.head == null) ≡ true = rw is.head in
    rw empty (record {
      counted = refl;
      rest = is;
      references = refl;
      destroyed = refl;
      freed = tt;
      outside = λ b _. refl;
    })
queue_remove_all-AllRemoved destroy matches h q ((a, v) ∷ cs) w is =
    let some_head : (q.head == null) ≡ false = rw is.head (not_null a is.chain.0) in
    rw some_head (
      Returns-resume (λ (c, r, w') g. AllRemoved destroy matches h q ((a, v) ∷ cs) 0 w c r w' g) _
        (remove_all_loop destroy matches (q.entries + 1) q 0 w h) _
        (remove_all_loop-AllRemoved destroy matches (q.entries + 1) h q ((a, v) ∷ cs) 0 w is
          (omega (arith, is.entries)) (omega (arith, is.bounded)))
        λ (c, r, w') g got. got)
