-- ===== src/Bluez/Queue/Cells.antt =====
-- What a queue stands for: the address and the value of each entry, in order.
use minipro.Base.{
  ◌≡◌, ◌≢◌, refl, ◌<◌, ◌^◌, Option, none, some, List, [], ◌∷◌, ◌++◌, arith, length, sym,
}
use minipro.Bluez.Queue.Store.{Ptr, null, Entry, Heap, Run, resume, put}
use minipro.Bluez.Queue.{Queue}

abbrev pub Cells : Type 0
Cells = List (Ptr × Ptr)

-- the values alone
abbrev pub values : Cells → List Ptr
values [] = []
values ((a, v) ∷ cs) = v ∷ values cs

-- an entry that only its queue refers to
abbrev pub linked : Ptr → Ptr → Entry
linked v n = record { ref_count = 1; value = v; next = n }

-- where a segment begins that goes on at `stop`, and the last address and value of one that
-- begins with `a` and `d`
abbrev pub first : Ptr → Cells → Ptr
first stop [] = stop
first stop ((a, _) ∷ _) = a

abbrev pub last : Ptr → Cells → Ptr
last a [] = a
last a ((b, _) ∷ cs) = last b cs

abbrev pub last_value : Ptr → Cells → Ptr
last_value d [] = d
last_value d ((_, e) ∷ cs) = last_value e cs

abbrev pub NotIn : Ptr → Cells → Type 0
NotIn p [] = Unit {0}
NotIn p ((a, _) ∷ cs) = (p ≢ a) × NotIn p cs

-- `cs` are linked, distinct entries, and the last one points to `stop`.
abbrev pub Holds : Heap → Ptr → Cells → Type 0
Holds h stop [] = Unit {0}
Holds h stop ((a, v) ∷ cs) =
    (a ≢ null) × (h a ≡ some (linked v (first stop cs))) × NotIn a cs × Holds h stop cs

-- `head`, `tail` and `entries` agree with the chain of entries, which `entries` can count.
pub record IsQueue (h : Heap) (q : Queue) (cs : Cells) : Type 0 where
  pub head : q.head ≡ first null cs
  pub tail : q.tail ≡ last null cs
  pub entries : q.entries ≡ length cs
  pub bounded : length cs < 2 ^ 32
  pub chain : Holds h null cs

-- `q` is not NULL and holds `cs`.
abbrev pub Owns : Heap → Option Queue → Cells → Type 0
Owns h none cs = ⊥
Owns h (some q) cs = IsQueue h q cs

-- the run ends, with no bad access and with rounds enough, in a result and a heap that satisfy `P`
abbrev pub Returns : {A : Type 0} → (A → Heap → Type 0) → Option (A × Heap) → Type 0
Returns P none = ⊥
Returns P (some (a, g)) = P a g

-- `g` is `h` at every address that is neither in `cs` nor `p`.
abbrev pub SameOutside : Ptr → Cells → Heap → Heap → Type 0
SameOutside p cs h g = (a : Ptr) → a ≢ p → NotIn a cs → g a ≡ h a

module _ (h : Heap) where
  pub NotIn-none : (p stop : Ptr) (cs : Cells) → h p ≡ none → Holds h stop cs → NotIn p cs
  NotIn-none p stop [] e hold = tt
  NotIn-none p stop ((a, v) ∷ cs) e hold = ((λ same. ground arith), NotIn-none p stop cs e hold.3)

  pub Holds-put :
      (p stop : Ptr) (e : Option Entry) (cs : Cells)
      → NotIn p cs
      → Holds h stop cs
      → Holds (put h p e) stop cs
  unfolding put
  Holds-put p stop e [] out hold = tt
  Holds-put p stop e ((a, v) ∷ cs) out hold =
      (hold.0, ground arith, hold.2, Holds-put p stop e cs out.1 hold.3)

pub last-ne : (p a : Ptr) (cs : Cells) → p ≢ a → NotIn p cs → p ≢ last a cs
last-ne p a [] ne out = ne
last-ne p a ((b, _) ∷ cs) ne out = last-ne p b cs out.0 out.1

pub last-ne-null :
    (h : Heap) (a stop : Ptr) (cs : Cells) → a ≢ null → Holds h stop cs → last a cs ≢ null
last-ne-null h a stop [] ne hold = ne
last-ne-null h a stop ((b, _) ∷ cs) ne hold = last-ne-null h b stop cs hold.0 hold.3

-- the last entry of a chain
pub load_last :
    (h : Heap) (a d stop : Ptr) (cs : Cells)
    → Holds h stop ((a, d) ∷ cs)
    → h (last a cs) ≡ some (linked (last_value d cs) stop)
load_last h a d stop [] hold = hold.1
load_last h a d stop ((b, e) ∷ cs) hold = load_last h b e stop cs hold.3

-- Pointing the last entry of a chain elsewhere.
pub Holds-relink :
    (h : Heap) (a d stop q : Ptr) (cs : Cells)
    → Holds h stop ((a, d) ∷ cs)
    → Holds (put h (last a cs) (some (linked (last_value d cs) q))) q ((a, d) ∷ cs)
unfolding put
Holds-relink h a d stop q [] hold = (hold.0, ground arith, tt, tt)
Holds-relink h a d stop q ((b, e) ∷ cs) hold = (
  hold.0,
  ground (arith, last-ne a b cs hold.2.0 hold.2.1),
  hold.2,
  Holds-relink h b e stop q cs hold.3,
)

-- Two chains that share no entry, the first of which leads to the second.
abbrev pub Disjoint : Cells → Cells → Type 0
Disjoint [] ys = Unit {0}
Disjoint ((a, _) ∷ xs) ys = NotIn a ys × Disjoint xs ys

pub NotIn-append : (p : Ptr) (xs ys : Cells) → NotIn p xs → NotIn p ys → NotIn p (xs ++ ys)
NotIn-append p [] ys hx hy = hy
NotIn-append p (x ∷ xs) ys hx hy = (hx.0, NotIn-append p xs ys hx.1 hy)

pub first-append : (stop : Ptr) (xs ys : Cells) → first stop (xs ++ ys) ≡ first (first stop ys) xs
first-append stop [] ys = refl
first-append stop (x ∷ xs) ys = refl

pub Holds-append :
    (h : Heap) (stop : Ptr) (xs ys : Cells)
    → Holds h (first stop ys) xs
    → Holds h stop ys
    → Disjoint xs ys
    → Holds h stop (xs ++ ys)
Holds-append h stop [] ys hx hy apart = hy
Holds-append h stop ((a, v) ∷ xs) ys hx hy apart = (
  hx.0,
  rw first-append hx.1,
  NotIn-append a xs ys hx.2 apart.0,
  Holds-append h stop xs ys hx.3 hy apart.1,
)

pub last-append_one : (a p v : Ptr) (cs : Cells) → last a (cs ++ (p, v) ∷ []) ≡ p
last-append_one a p v [] = refl
last-append_one a p v ((b, _) ∷ cs) = last-append_one b p v cs

pub Disjoint-single : (p v : Ptr) (cs : Cells) → NotIn p cs → Disjoint cs ((p, v) ∷ [])
Disjoint-single p v [] out = tt
Disjoint-single p v ((a, _) ∷ cs) out =
    ((λ same. out.0 (sym same), tt), Disjoint-single p v cs out.1)

pub last-append : (a b e : Ptr) (xs ys : Cells) → last a (xs ++ ((b, e) ∷ ys)) ≡ last b ys
last-append a b e [] ys = refl
last-append a b e ((c, _) ∷ xs) ys = last-append c b e xs ys

pub last-NotIn : (a d : Ptr) (xs ys : Cells) → Disjoint ((a, d) ∷ xs) ys → NotIn (last a xs) ys
last-NotIn a d [] ys apart = apart.0
last-NotIn a d ((b, e) ∷ xs) ys apart = last-NotIn b e xs ys apart.1

-- What is known of a run carries over to how it goes on.
pub Returns-resume :
    {A B : Type 0} (P : A → Heap → Type 0) (Q : B → Heap → Type 0) (r : Option (A × Heap))
    (k : A → Run B)
    → Returns P r
    → ((a : A) (g : Heap) → P a g → Returns Q (k a g))
    → Returns Q (resume r k)
Returns-resume P Q none k got next = absurd got
Returns-resume P Q (some (a, g)) k got next = next a g got

-- Every entry of `cs` that is not in `kept` has been freed.
abbrev pub Freed : Heap → Cells → Cells → Type 0
Freed g kept [] = Unit {0}
Freed g kept ((a, _) ∷ cs) = (NotIn a kept → g a ≡ none) × Freed g kept cs

pub Returns-mono :
    {A : Type 0} (P Q : A → Heap → Type 0) (r : Option (A × Heap))
    → Returns P r
    → ((a : A) (g : Heap) → P a g → Q a g)
    → Returns Q r
Returns-mono P Q none got weaken = got
Returns-mono P Q (some (a, g)) got weaken = weaken a g got
