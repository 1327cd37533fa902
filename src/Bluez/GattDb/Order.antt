-- ===== src/Bluez/GattDb/Order.antt =====
-- The handle ranges of the services: when they are in order and apart, and when not.
use minipro.Base.{
  ℕ, suc, ◌+◌, ◌-◌, ◌^◌, ◌≤◌, ◌<◌, ◌≡◌, ◌⊎◌, refl, subst, Bool, false, ◌||◌, Option, none, some,
  List, [], ◌∷◌, arith, ltb, All, Bool-cases, inl, inr,
}
use minipro.Bluez.Uuid.{Uuid}
use minipro.Bluez.GattDb.{
  Attribute, Service, Db, service_start, service_end, gatt_db_service_create, new_attribute,
  Location, taken, behind, service_matches, new_service, find_insert_loc, insert_at, place,
  gatt_db_insert_service,
}

-- the first handle behind a service
abbrev pub past : Service → ℕ
past s = s.declaration.handle + s.num_handles

-- a service whose handles are 16-bit numbers above 0
pub record Fits (s : Service) : Type 0 where
  pub some_handle : 0 < s.num_handles
  pub positive : 0 < s.declaration.handle
  pub in_range : s.declaration.handle + s.num_handles ≤ 2 ^ 16

-- The services lie at `lo` or above, in ascending order, and share no handle.
abbrev pub Above : ℕ → List Service → Type 0
Above lo [] = Unit {0}
Above lo (s ∷ ss) = (lo ≤ s.declaration.handle) × Fits s × Above (past s) ss

abbrev pub IsOrdered : Db → Type 0
IsOrdered db = Above 1 db.services

-- No service lies inside the handles [h, h + n) and ends before them.
abbrev pub EnclosesNone : (h n : ℕ) → List Service → Type 0
EnclosesNone h n ss = All (λ s. (s.declaration.handle ≤ h) ⊎ (h + n ≤ past s)) ss

pub service_end_lem : (s : Service) → Fits s → service_end s ≡ past s - 1
unfolding service_end
service_end_lem s fits = omega arith

-- one round of `find_insert_loc` that found nothing in the way
find_insert_loc_step :
    (h e p m : ℕ) (t : Service) (ss : List Service)
    → find_insert_loc h e p (t ∷ ss) ≡ behind m
    → ((e < service_start t) × (m ≡ p))
      ⊎ ((service_start t ≤ e)
          × (service_end t < e)
          × ((h < service_start t) ⊎ (service_end t < h))
          × (find_insert_loc h e (p + 1) ss ≡ behind m))
unfolding find_insert_loc
find_insert_loc_step h e p m t ss found = ground arith

find_insert_loc_nil : (h e p m : ℕ) → find_insert_loc h e p [] ≡ behind m → m ≡ p
unfolding find_insert_loc
find_insert_loc_nil h e p m found = ground arith

insert_at-Above :
    (s : Service) (h n : ℕ) (ss : List Service) (lo p m : ℕ)
    → s.declaration.handle ≡ h
    → s.num_handles ≡ n
    → Fits s
    → Above lo ss
    → lo ≤ h
    → EnclosesNone h n ss
    → find_insert_loc h (h + n - 1) p ss ≡ behind m
    → (k : ℕ) × (m ≡ p + k) × Above lo (insert_at k s ss)
unfolding insert_at service_start
insert_at-Above s h n [] lo p m eh en fits above low clear e =
    (0, omega (arith, find_insert_loc_nil h (h + n - 1) p m e), (omega arith, fits, tt))
insert_at-Above s h n (t ∷ ss) lo p m eh en fits above low clear e =
    elim (find_insert_loc_step h (h + n - 1) p m t ss e) [
      | inl (before, same) ↦ (0, omega arith, (omega arith, fits, (omega arith, above.1, above.2)))
      | inr (_, later, apart, found) ↦
          let end = service_end_lem t above.1 in
          let (k, eq, rest) =
            insert_at-Above s h n ss (past t) (p + 1) m eh en fits above.2 (omega (arith, end))
              clear.1 found in
          (suc k, omega arith, (above.0, above.1, rest))
    ]

-- the guards of `gatt_db_insert_service`
abbrev pub InRange : (h n : ℕ) → Type 0
InRange h n = (0 < h) × (0 < n) × (h + n ≤ 2 ^ 16)

pub guard_passes :
    (h n : ℕ) → InRange h n → (ltb h 1 || (ltb n 1 || ltb (2 ^ 16 - 1) (h + n - 1))) ≡ false
guard_passes h n range = ground arith

pub creates :
    (u : Uuid) (h : ℕ) (primary : Bool) (n : ℕ)
    → 0 < n
    → gatt_db_service_create u h primary n ≡ some (new_service u h primary n)
unfolding gatt_db_service_create
creates u h primary n pos = ground arith

pub new_service-Fits :
    (u : Uuid) (h : ℕ) (primary : Bool) (n : ℕ) → InRange h n → Fits (new_service u h primary n)
unfolding new_service new_attribute
new_service-Fits u h primary n range = omega arith

module _ (db : Db) (h : ℕ) (u : Uuid) (primary : Bool) (n : ℕ) where
  -- The outcomes of `gatt_db_insert_service`: refused, found, or put behind some services.
  pub data Outcome : Option Attribute × Db → Type 0 where
    refused : {r : Option Attribute × Db} → r ≡ (none, db) → Outcome r
    present : {r : Option Attribute × Db} (s : Service) → r ≡ (some s.declaration, db) → Outcome r
    placed :
        {r : Option Attribute × Db} (m : ℕ)
        → InRange h n
        → find_insert_loc h (h + n - 1) 0 db.services ≡ behind m
        → r ≡ (some (new_service u h primary n).declaration, place db m (new_service u h primary n))
        → Outcome r

  pub located :
      (loc : Location)
      → InRange h n
      → find_insert_loc h (h + n - 1) 0 db.services ≡ loc
      → Outcome (gatt_db_insert_service db h u primary n)
  unfolding gatt_db_insert_service
  located (taken s) range e = elim (Bool-cases (service_matches s h u primary n)) [
    | inl same ↦ present s (rw (guard_passes h n range, e, same))
    | inr other ↦ refused (rw (guard_passes h n range, e, other))
  ]
  located (behind m) range e =
      placed m range e (rw (guard_passes h n range, e, creates u h primary n range.1))

  pub outcome : Outcome (gatt_db_insert_service db h u primary n)
  unfolding gatt_db_insert_service
  outcome = elim (Bool-cases (ltb h 1 || (ltb n 1 || ltb (2 ^ 16 - 1) (h + n - 1)))) [
    | inl bad ↦ refused (rw bad)
    | inr good ↦ located (find_insert_loc h (h + n - 1) 0 db.services) (ground arith) refl
  ]

-- What `place` does to the order, when nothing was in the way.
pub place-IsOrdered :
    (db : Db) (h : ℕ) (u : Uuid) (primary : Bool) (n m : ℕ)
    → InRange h n
    → IsOrdered db
    → EnclosesNone h n db.services
    → find_insert_loc h (h + n - 1) 0 db.services ≡ behind m
    → IsOrdered (place db m (new_service u h primary n))
unfolding place new_service new_attribute
place-IsOrdered db h u primary n m range ordered clear e =
    let s = new_service u h primary n in
    let (k, same, above) =
      insert_at-Above s h n db.services 1 0 m refl refl (new_service-Fits u h primary n range)
        ordered range.0 clear e in
    subst (λ (i : ℕ). Above 1 (insert_at i s db.services)) (omega (arith, same)) above

-- `gatt_db_insert_service` never puts services out of order or over one another, whatever it is asked
-- for, unless an older service begins and ends strictly inside the new handles.
pub insert_service-IsOrdered :
    (db : Db) (h : ℕ) (u : Uuid) (primary : Bool) (n : ℕ)
    → IsOrdered db
    → EnclosesNone h n db.services
    → IsOrdered (gatt_db_insert_service db h u primary n).1
insert_service-IsOrdered db h u primary n ordered clear = elim (outcome db h u primary n) [
  | refused e ↦ rw e ordered
  | present s e ↦ rw e ordered
  | placed m range found e ↦ rw e (place-IsOrdered db h u primary n m range ordered clear found)
]
