-- ===== src/Bluez/GattDb/Attributes/Dense.antt =====
-- Services whose attributes fill their handles from the first one on.
use minipro.Base.{
  ℕ, zero, suc, ◌+◌, ◌-◌, ◌^◌, ◌≤◌, ◌<◌, ◌≡◌, refl, min, Option, none, some, List, [], ◌∷◌, arith,
  ltb, if◌then◌else◌, length, get_elem?, set,
}
use minipro.Bluez.GattDb.{Attribute, Service, attributes}
use minipro.Bluez.GattDb.Attributes.{
  index_loop, get_attribute_index, get_handle_at_index, set_attribute,
}

abbrev pub AllFree : List (Option Attribute) → Type 0
AllFree [] = Unit {0}
AllFree (none ∷ slots) = AllFree slots
AllFree (some a ∷ slots) = ⊥

-- The first k slots hold the handles from h on, and the others are free.
abbrev pub Filled : (h k : ℕ) → List (Option Attribute) → Type 0
Filled h zero slots = AllFree slots
Filled h (suc k) [] = ⊥
Filled h (suc k) (none ∷ slots) = ⊥
Filled h (suc k) (some a ∷ slots) = (a.handle ≡ h) × Filled (h + 1) k slots

-- The k attributes of a service take its first k handles, and all its handles are 16-bit numbers
-- above 0.
pub record IsDense (s : Service) (k : ℕ) : Type 0 where
  pub filled : Filled s.declaration.handle k (attributes s)
  pub size : length (attributes s) ≡ s.num_handles
  pub some_filled : 0 < k
  pub positive : 0 < s.declaration.handle
  pub in_range : s.declaration.handle + s.num_handles ≤ 2 ^ 16

Filled-length : (h k : ℕ) (slots : List (Option Attribute)) → Filled h k slots → k ≤ length slots
Filled-length h zero slots filled = omega arith
Filled-length h (suc k) [] filled = absurd filled
Filled-length h (suc k) (none ∷ slots) filled = absurd filled
Filled-length h (suc k) (some a ∷ slots) filled =
    omega (arith, Filled-length (h + 1) k slots filled.1)

index_loop_free :
    (bound i : ℕ) (slots : List (Option Attribute)) → AllFree slots → index_loop bound i slots ≡ i
unfolding index_loop
index_loop_free bound i [] free = refl
index_loop_free bound i (none ∷ slots) free = refl
index_loop_free bound i (some a ∷ slots) free = absurd free

index_loop-Filled :
    (bound i h k : ℕ) (slots : List (Option Attribute))
    → Filled h k slots
    → i ≤ bound
    → index_loop bound i slots ≡ min (i + k) bound
unfolding index_loop
index_loop-Filled bound i h zero slots free le = omega (arith, index_loop_free bound i slots free)
index_loop-Filled bound i h (suc k) [] filled le = absurd filled
index_loop-Filled bound i h (suc k) (none ∷ slots) filled le = absurd filled
index_loop-Filled bound i h (suc k) (some a ∷ slots) filled le =
    ground (arith, index_loop-Filled bound (i + 1) (h + 1) k slots filled.1)

-- The first free index, or 0 if the handles are used up.
pub get_attribute_index-IsDense :
    (s : Service) (k end_offset : ℕ)
    → IsDense s k
    → get_attribute_index s end_offset ≡ (if ltb (k + end_offset) s.num_handles then k else 0)
unfolding get_attribute_index
get_attribute_index-IsDense s k end_offset dense = ground (
  arith,
  index_loop-Filled (s.num_handles - end_offset) 0 s.declaration.handle k (attributes s)
      dense.filled (omega arith),
  Filled-length s.declaration.handle k (attributes s) dense.filled,
)

get_elem-Filled :
    (h k i : ℕ) (slots : List (Option Attribute))
    → Filled h k slots
    → i < k
    → (a : Attribute) × (get_elem? slots i ≡ some (some a)) × (a.handle ≡ h + i)
get_elem-Filled h zero i slots filled lt = absurd (omega arith)
get_elem-Filled h (suc k) i [] filled lt = absurd filled
get_elem-Filled h (suc k) i (none ∷ slots) filled lt = absurd filled
get_elem-Filled h (suc k) zero (some a ∷ slots) filled lt = (a, refl, omega arith)
get_elem-Filled h (suc k) (suc i) (some a ∷ slots) filled lt =
    let (b, e, same) = get_elem-Filled (h + 1) k i slots filled.1 (omega arith) in
    (b, e, omega arith)

pub get_handle_at_index-IsDense :
    (s : Service) (k i : ℕ)
    → IsDense s k
    → i < k
    → get_handle_at_index s i ≡ s.declaration.handle + i
unfolding get_handle_at_index
get_handle_at_index-IsDense s k i dense lt =
    let (a, e, same) = get_elem-Filled s.declaration.handle k i (attributes s) dense.filled lt in
    rw e same

Filled-set :
    (h k : ℕ) (slots : List (Option Attribute)) (a : Attribute)
    → Filled h k slots
    → k < length slots
    → a.handle ≡ h + k
    → Filled h (suc k) (set slots k (some a))
      × (length (set slots k (some a)) ≡ length slots)
      × (get_elem? (set slots k (some a)) k ≡ some (some a))
Filled-set h zero [] a free lt same = absurd (omega arith)
Filled-set h zero (none ∷ slots) a free lt same = ((omega arith, free), refl, refl)
Filled-set h zero (some b ∷ slots) a free lt same = absurd free
Filled-set h (suc k) [] a filled lt same = absurd filled
Filled-set h (suc k) (none ∷ slots) a filled lt same = absurd filled
Filled-set h (suc k) (some b ∷ slots) a filled lt same =
    let (rest, size, there) = Filled-set (h + 1) k slots a filled.1 (omega arith) (omega arith) in
    ((filled.0, rest), omega arith, there)

-- Using the first free slot for the next handle.
pub set_attribute-IsDense :
    (s : Service) (k : ℕ) (a : Attribute)
    → IsDense s k
    → k < s.num_handles
    → a.handle ≡ s.declaration.handle + k
    → IsDense (set_attribute s k a) (suc k)
      × (get_elem? (attributes (set_attribute s k a)) k ≡ some (some a))
unfolding set_attribute
set_attribute-IsDense s zero a dense lt same = absurd (omega (arith, dense.some_filled))
set_attribute-IsDense s (suc k) a dense lt same =
    let (rest, size, there) =
      Filled-set (s.declaration.handle + 1) k s.slots a dense.filled.1 (omega (arith, dense.size))
        (omega arith) in
    let index : suc k - 1 ≡ k = omega arith in
    rw index (
      record {
        filled = (dense.filled.0, rest);
        size = omega (arith, dense.size);
        some_filled = omega arith;
        positive = dense.positive;
        in_range = dense.in_range;
      },
      there,
    )

get_elem-set_above :
    (slots : List (Option Attribute)) (i j : ℕ) (v : Option Attribute)
    → i < j
    → get_elem? (set slots j v) i ≡ get_elem? slots i
get_elem-set_above [] i j v lt = refl
get_elem-set_above (x ∷ slots) i zero v lt = absurd (omega arith)
get_elem-set_above (x ∷ slots) zero (suc j) v lt = refl
get_elem-set_above (x ∷ slots) (suc i) (suc j) v lt = get_elem-set_above slots i j v (omega arith)

-- The slots before the one that is set stay as they are.
pub set_attribute_below :
    (s : Service) (i k : ℕ) (a : Attribute)
    → i < k
    → get_elem? (attributes (set_attribute s k a)) i ≡ get_elem? (attributes s) i
unfolding set_attribute
set_attribute_below s zero k a lt = refl
set_attribute_below s (suc i) k a lt = get_elem-set_above s.slots i (k - 1) (some a) (omega arith)
