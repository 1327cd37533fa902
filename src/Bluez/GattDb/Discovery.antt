-- ===== src/Bluez/GattDb/Discovery.antt =====
-- What discovery lists, against a plain selection from all attributes of the active services.
pub mod Full
mod Tests
use minipro.Base.{
  ℕ, zero, suc, ◌+◌, ◌-◌, ◌^◌, ◌%◌, ◌≤◌, ◌<◌, ◌≡◌, refl, sym, ap, ◌∙◌, Bool, true, false, not, ◌&&◌,
  ◌||◌, Option, none, some, List, [], ◌∷◌, ◌++◌, arith, ◌==◌, ltb, leb, if◌then◌else◌, length, All,
  Bool-cases, inl, inr,
}
use minipro.Bluez.Uuid.{Uuid}
use minipro.Bluez.GattDb.{Attribute, Service, Db, attributes, uuid_equal}
use minipro.Bluez.GattDb.Order.{past}
use minipro.Bluez.GattDb.Lookup.{
  information_loop, find_information, each_service, gatt_db_find_information, by_type_loop,
  read_by_type, gatt_db_read_by_type, find_by_type_loop, find_by_type, gatt_db_find_by_type,
}
use minipro.Bluez.GattDb.Attributes.Dense.{IsDense, Filled, AllFree}

-- The handles in use are in [lo, hi) and ascend.
abbrev pub Ranged : (lo hi : ℕ) → List (Option Attribute) → Type 0
Ranged lo hi [] = lo ≤ hi
Ranged lo hi (none ∷ slots) = Ranged lo hi slots
Ranged lo hi (some a ∷ slots) = (lo ≤ a.handle) × Ranged (a.handle + 1) hi slots

abbrev pub IsRanged : Service → Type 0
IsRanged s = Ranged s.declaration.handle (past s) (attributes s)

-- the attributes that pass a test
abbrev pub select : (Attribute → Bool) → List (Option Attribute) → List Attribute
select test [] = []
select test (none ∷ slots) = select test slots
select test (some a ∷ slots) = if test a then a ∷ select test slots else select test slots

-- the slots of the active services
abbrev pub active_slots : List Service → List (Option Attribute)
active_slots [] = []
active_slots (s ∷ ss) = if s.active then attributes s ++ active_slots ss else active_slots ss

abbrev pub within : (start end : ℕ) → Attribute → Bool
within start end a = leb start a.handle && leb a.handle end

select-append :
    (test : Attribute → Bool) (xs ys : List (Option Attribute))
    → select test (xs ++ ys) ≡ select test xs ++ select test ys
select-append test [] ys = refl
select-append test (none ∷ xs) ys = select-append test xs ys
select-append test (some a ∷ xs) ys = elim (Bool-cases (test a)) [
  | inl hit ↦ rw hit (ap (λ zs. a ∷ zs) (select-append test xs ys))
  | inr miss ↦ rw miss (select-append test xs ys)
]

-- beyond the range nothing is selected
select_beyond :
    (also : Attribute → Bool) (start end lo hi : ℕ) (slots : List (Option Attribute))
    → Ranged lo hi slots
    → end < lo
    → select (λ a. within start end a && also a) slots ≡ []
select_beyond also start end lo hi [] ranged beyond = refl
select_beyond also start end lo hi (none ∷ slots) ranged beyond =
    select_beyond also start end lo hi slots ranged beyond
select_beyond also start end lo hi (some a ∷ slots) ranged beyond =
    ground (arith, select_beyond also start end (a.handle + 1) hi slots ranged.1)

Ranged-le : (lo hi : ℕ) (slots : List (Option Attribute)) → Ranged lo hi slots → lo ≤ hi
Ranged-le lo hi [] ranged = ranged
Ranged-le lo hi (none ∷ slots) ranged = Ranged-le lo hi slots ranged
Ranged-le lo hi (some a ∷ slots) ranged =
    omega (arith, ranged.0, Ranged-le (a.handle + 1) hi slots ranged.1)

-- and nothing before it
select_before :
    (also : Attribute → Bool) (start end lo hi : ℕ) (slots : List (Option Attribute))
    → Ranged lo hi slots
    → hi ≤ start
    → select (λ a. within start end a && also a) slots ≡ []
select_before also start end lo hi [] ranged before = refl
select_before also start end lo hi (none ∷ slots) ranged before =
    select_before also start end lo hi slots ranged before
select_before also start end lo hi (some a ∷ slots) ranged before = ground (
  arith,
  Ranged-le (a.handle + 1) hi slots ranged.1,
  select_before also start end (a.handle + 1) hi slots ranged.1,
)

always : Attribute → Bool
always a = true

module _ (start end : ℕ) (type : Uuid) where
  information_loop-select :
      (lo hi : ℕ) (slots : List (Option Attribute))
      → Ranged lo hi slots
      → information_loop start end slots ≡ select (λ a. within start end a && always a) slots
  unfolding information_loop always
  information_loop-select lo hi [] ranged = refl
  information_loop-select lo hi (none ∷ slots) ranged = information_loop-select lo hi slots ranged
  information_loop-select lo hi (some a ∷ slots) ranged = ground (
    arith,
    information_loop-select (a.handle + 1) hi slots ranged.1,
    select_beyond always start end (a.handle + 1) hi slots ranged.1,
  )

  by_type_loop-select :
      (lo hi : ℕ) (slots : List (Option Attribute))
      → Ranged lo hi slots
      → by_type_loop start end type slots
        ≡ select (λ a. within start end a && uuid_equal type a.uuid) slots
  unfolding by_type_loop
  by_type_loop-select lo hi [] ranged = refl
  by_type_loop-select lo hi (none ∷ slots) ranged = by_type_loop-select lo hi slots ranged
  by_type_loop-select lo hi (some a ∷ slots) ranged = ground (
    arith,
    by_type_loop-select (a.handle + 1) hi slots ranged.1,
    select_beyond (λ b. uuid_equal type b.uuid) start end (a.handle + 1) hi slots ranged.1,
  )

  find_by_type_loop-select :
      (slots : List (Option Attribute))
      → find_by_type_loop start end type slots
        ≡ select (λ a. within start end a && uuid_equal type a.uuid) slots
  unfolding find_by_type_loop
  find_by_type_loop-select [] = refl
  find_by_type_loop-select (none ∷ slots) = find_by_type_loop-select slots
  find_by_type_loop-select (some a ∷ slots) = ground (arith, find_by_type_loop-select slots)

  both_empty :
      (active : Bool)
      → ◌≡◌ {A = List Attribute} (if not active then [] else []) (if active then [] else [])
  both_empty true = refl
  both_empty false = refl

  guard_lem :
      (active : Bool) (xs : List Attribute)
      → (if not active then [] else xs) ≡ (if active then xs else [])
  guard_lem true xs = refl
  guard_lem false xs = refl

  find_information-select :
      (s : Service)
      → IsRanged s
      → find_information start end s
        ≡ (if s.active then select (λ a. within start end a && always a) (attributes s) else [])
  unfolding find_information
  find_information-select s ranged =
      let whole = information_loop-select s.declaration.handle (past s) (attributes s) ranged in
      let before =
        select_before always start end s.declaration.handle (past s) (attributes s) ranged in
      elim (Bool-cases (ltb (s.declaration.handle + s.num_handles - 1) start)) [
        | inl hit ↦ rw (hit, before (ground arith)) (both_empty s.active)
        | inr miss ↦ rw (miss, whole) (guard_lem s.active _)
      ]

-- The lists of a queue's services put together are the list of all, where each is a selection.
each_service-select :
    (visit : Service → List Attribute) (test : Attribute → Bool) (ss : List Service)
    → All (λ s. visit s ≡ (if s.active then select test (attributes s) else [])) ss
    → each_service visit ss ≡ select test (active_slots ss)
unfolding each_service
each_service-select visit test [] all = refl
each_service-select visit test (s ∷ ss) all = elim (Bool-cases s.active) [
  | inl hit ↦
      rw (all.0, hit, each_service-select visit test ss all.1)
        (sym (select-append test (attributes s) (active_slots ss)))
  | inr miss ↦ rw (all.0, miss) (each_service-select visit test ss all.1)
]

module _ (db : Db) (start end : ℕ) (type : Uuid) (ranged : All IsRanged db.services) where
  each_information :
      (ss : List Service)
      → All IsRanged ss
      → All
          (λ s. find_information start end s ≡ (
            if s.active then select (λ a. within start end a && always a) (attributes s) else []))
          ss
  each_information [] all = tt
  each_information (s ∷ ss) all =
      (find_information-select start end type s all.0, each_information ss all.1)

  each_by_type :
      (ss : List Service)
      → All IsRanged ss
      → All
          (λ s. read_by_type start end type s ≡ (
            if s.active
            then select (λ a. within start end a && uuid_equal type a.uuid) (attributes s)
            else []))
          ss
  unfolding read_by_type
  each_by_type [] all = tt
  each_by_type (s ∷ ss) all = (
    rw (by_type_loop-select start end type s.declaration.handle (past s) (attributes s) all.0)
        (guard_lem start end type s.active _),
    each_by_type ss all.1,
  )

  each_find :
      (ss : List Service)
      → All
          (λ s. find_by_type start end type s ≡ (
            if s.active
            then select (λ a. within start end a && uuid_equal type a.uuid) (attributes s)
            else []))
          ss
  unfolding find_by_type
  each_find [] = tt
  each_find (s ∷ ss) = (
    rw (find_by_type_loop-select start end type (attributes s))
        (guard_lem start end type s.active _),
    each_find ss,
  )

  -- When the handles of each service ascend within its range, `gatt_db_find_information` lists exactly
  -- the attributes of the active services with a handle from `start` to `end`, in order, and
  -- `gatt_db_read_by_type` and `gatt_db_find_by_type` those of them that have the given type: the
  -- early returns lose nothing.
  pub discovery_lem :
      (gatt_db_find_information db start end
        ≡ select (λ a. within start end a && true) (active_slots db.services))
      × (gatt_db_read_by_type db start end type
          ≡ select (λ a. within start end a && uuid_equal type a.uuid) (active_slots db.services))
      × (gatt_db_find_by_type db start end type
          ≡ select (λ a. within start end a && uuid_equal type a.uuid) (active_slots db.services))
  unfolding gatt_db_find_information gatt_db_read_by_type gatt_db_find_by_type always
  discovery_lem =
      let typed = λ (a : Attribute). within start end a && uuid_equal type a.uuid in
      (
        each_service-select (find_information start end) (λ a. within start end a && always a)
            db.services (each_information db.services ranged),
        each_service-select (read_by_type start end type) typed db.services
            (each_by_type db.services ranged),
        each_service-select (find_by_type start end type) typed db.services (each_find db.services),
      )
