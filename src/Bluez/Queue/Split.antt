-- ===== src/Bluez/Queue/Split.antt =====
-- A queue cut at the first entry that matches.
use minipro.Base.{
  ◌≡◌, refl, sym, ◌∙◌, Bool, true, false, Option, none, some, [], ◌∷◌, ◌++◌, append_assoc,
  if◌then◌else◌, Bool-cases, inl, inr,
}
use minipro.Bluez.Queue.Store.{Ptr, Heap}
use minipro.Bluez.Queue.Cells.{Cells, first, NotIn, Holds, Disjoint, Freed, first-append}

module _ (matches : Ptr → Bool) where
  -- no entry matches
  abbrev pub Misses : Cells → Type 0
  Misses [] = Unit {0}
  Misses ((a, v) ∷ cs) = (matches v ≡ false) × Misses cs

  -- the value of the first entry that matches, and the entries without it
  unfoldable pub first_match : Cells → Option Ptr
  first_match [] = none
  first_match ((a, v) ∷ cs) = if matches v then some v else first_match cs

  unfoldable pub without : Cells → Cells
  without [] = []
  without ((a, v) ∷ cs) = if matches v then cs else (a, v) ∷ without cs

  -- the entries with `c` behind the first one that matches
  unfoldable pub insert_behind : Ptr × Ptr → Cells → Cells
  insert_behind c [] = []
  insert_behind c ((a, v) ∷ cs) =
      if matches v then (a, v) ∷ (c ∷ cs) else (a, v) ∷ insert_behind c cs

  pub data Split : Cells → Type 0 where
    missing : {cs : Cells} → Misses cs → Split cs
    found :
        {cs : Cells} (xs : Cells) (p v : Ptr) (ys : Cells)
        → cs ≡ xs ++ ((p, v) ∷ ys)
        → Misses xs
        → matches v ≡ true
        → Split cs

  extend : (a v : Ptr) (cs : Cells) → matches v ≡ false → Split cs → Split ((a, v) ∷ cs)
  extend a v cs miss (missing all) = missing (miss, all)
  extend a v cs miss (found xs p w ys e all hit) = found ((a, v) ∷ xs) p w ys (rw e) (miss, all) hit

  pub split : (cs : Cells) → Split cs
  split [] = missing tt
  split ((a, v) ∷ cs) = elim (Bool-cases (matches v)) [
    | inl hit ↦ found [] a v cs refl tt hit
    | inr miss ↦ extend a v cs miss (split cs)
  ]

  pub missing_lem :
      (c : Ptr × Ptr) (cs : Cells)
      → Misses cs
      → (first_match cs ≡ none) × (without cs ≡ cs) × (insert_behind c cs ≡ cs)
  unfolding first_match without insert_behind
  missing_lem c [] all = (refl, refl, refl)
  missing_lem c ((a, v) ∷ cs) all =
      rw all.0 (let ih = missing_lem c cs all.1 in (ih.0, rw ih.1, rw ih.2))

  pub found_lem :
      (c : Ptr × Ptr) (xs : Cells) (p v : Ptr) (ys : Cells)
      → Misses xs
      → matches v ≡ true
      → (first_match (xs ++ ((p, v) ∷ ys)) ≡ some v)
        × (without (xs ++ ((p, v) ∷ ys)) ≡ xs ++ ys)
        × (insert_behind c (xs ++ ((p, v) ∷ ys)) ≡ xs ++ ((p, v) ∷ (c ∷ ys)))
  unfolding first_match without insert_behind
  found_lem c [] p v ys all hit = (rw hit, rw hit, rw hit)
  found_lem c ((a, w) ∷ xs) p v ys all hit =
      rw all.0 (let ih = found_lem c xs p v ys all.1 hit in (ih.0, rw ih.1, rw ih.2))

pub NotIn-split : (p : Ptr) (xs ys : Cells) → NotIn p (xs ++ ys) → NotIn p xs × NotIn p ys
NotIn-split p [] ys out = (tt, out)
NotIn-split p (x ∷ xs) ys out = let ih = NotIn-split p xs ys out.1 in ((out.0, ih.0), ih.1)

-- A chain cut in two.
pub Holds-split :
    (h : Heap) (stop : Ptr) (xs ys : Cells)
    → Holds h stop (xs ++ ys)
    → Holds h (first stop ys) xs × Holds h stop ys × Disjoint xs ys
Holds-split h stop [] ys hold = (tt, hold, tt)
Holds-split h stop ((a, v) ∷ xs) ys hold =
    let ih = Holds-split h stop xs ys hold.3 in
    let apart = NotIn-split a xs ys hold.2 in
    ((hold.0, rw first-append at hold.1, apart.0, ih.0), ih.1, (apart.1, ih.2))

-- An entry of the second part is not in the first.
pub NotIn-Disjoint :
    (p v : Ptr) (xs ys : Cells) → Disjoint xs ((p, v) ∷ ys) → NotIn p xs × Disjoint xs ys
NotIn-Disjoint p v [] ys apart = (tt, tt)
NotIn-Disjoint p v ((a, w) ∷ xs) ys apart =
    let ih = NotIn-Disjoint p v xs ys apart.1 in ((λ e. apart.0.0 (sym e), ih.0), (apart.0.1, ih.1))

pub Disjoint-cons :
    (p v : Ptr) (xs ys : Cells) → NotIn p xs → Disjoint xs ys → Disjoint xs ((p, v) ∷ ys)
Disjoint-cons p v [] ys out apart = tt
Disjoint-cons p v ((a, w) ∷ xs) ys out apart =
    ((λ e. out.0 (sym e), apart.0), Disjoint-cons p v xs ys out.1 apart.1)

module _ (g : Heap) (kept : Cells) where
  Freed-suffix : (pre cs : Cells) → kept ≡ pre ++ cs → Freed g kept cs
  Freed-suffix pre [] e = tt
  Freed-suffix pre ((a, v) ∷ cs) e = (
    (λ out. absurd ((NotIn-split a pre ((a, v) ∷ cs) (rw e at out)).1.0 refl)),
    Freed-suffix (pre ++ (a, v) ∷ []) cs (e ∙ sym (append_assoc pre ((a, v) ∷ []) cs)),
  )

  Freed-gap :
      (pre xs : Cells) (p v : Ptr) (ys : Cells)
      → kept ≡ pre ++ (xs ++ ys)
      → g p ≡ none
      → Freed g kept (xs ++ ((p, v) ∷ ys))
  Freed-gap pre [] p v ys e gone = ((λ _. gone), Freed-suffix pre ys e)
  Freed-gap pre ((a, w) ∷ xs) p v ys e gone = (
    (λ out. absurd ((NotIn-split a pre ((a, w) ∷ (xs ++ ys)) (rw e at out)).1.0 refl)),
    Freed-gap (pre ++ (a, w) ∷ []) xs p v ys (e ∙ sym (append_assoc pre ((a, w) ∷ []) (xs ++ ys)))
        gone,
  )

pub Freed-self : (g : Heap) (cs : Cells) → Freed g cs cs
Freed-self g cs = Freed-suffix g cs [] cs refl

-- Taking out one entry frees that one.
pub Freed-erase :
    (g : Heap) (xs : Cells) (p v : Ptr) (ys : Cells)
    → g p ≡ none
    → Freed g (xs ++ ys) (xs ++ ((p, v) ∷ ys))
Freed-erase g xs p v ys gone = Freed-gap g (xs ++ ys) [] xs p v ys refl gone
