-- ===== src/Bluez/GattDb/Insert.antt =====
-- How `find_insert_loc` and `queue_find` walk over services that are in order.
use minipro.Base.{
  ℕ, zero, suc, ◌+◌, ◌-◌, ◌≤◌, ◌<◌, ◌≡◌, ◌⊎◌, refl, ◌∙◌, some, List, [], ◌∷◌, arith, All, inl, inr,
}
use minipro.Bluez.GattDb.{Service, Db, service_start, taken, behind, find_insert_loc, insert_at}
use minipro.Bluez.GattDb.Order.{past, Fits, Above, IsOrdered, EnclosesNone, service_end_lem}
use minipro.Bluez.GattDb.Lookup.{
  find_service_for_handle, find_service, find_attribute, gatt_db_get_attribute,
}

-- The handles [h, h + n) belong to no service.
abbrev pub Apart : (h n : ℕ) → List Service → Type 0
Apart h n ss = All (λ s. (past s ≤ h) ⊎ (h + n ≤ s.declaration.handle)) ss

pub Apart-EnclosesNone :
    (h n lo : ℕ) (ss : List Service) → Above lo ss → Apart h n ss → EnclosesNone h n ss
Apart-EnclosesNone h n lo [] above apart = tt
Apart-EnclosesNone h n lo (s ∷ ss) above apart = (
  elim apart.0 [ inl p ↦ inl (omega arith) | inr p ↦ inr (omega arith) ],
  Apart-EnclosesNone h n (past s) ss above.2 apart.1,
)

-- the two ways for `find_insert_loc` not to meet a service
passes :
    (h n p : ℕ) (s : Service) (ss : List Service)
    → Fits s
    → 0 < n
    → past s ≤ h
    → find_insert_loc h (h + n - 1) p (s ∷ ss) ≡ find_insert_loc h (h + n - 1) (p + 1) ss
unfolding find_insert_loc service_start
passes h n p s ss fits pos le = ground (arith, service_end_lem s fits)

stops :
    (h n p : ℕ) (s : Service) (ss : List Service)
    → 0 < n
    → h + n ≤ s.declaration.handle
    → find_insert_loc h (h + n - 1) p (s ∷ ss) ≡ behind p
unfolding find_insert_loc service_start
stops h n p s ss pos le = ground arith

pub find_insert_loc-Apart :
    (h n p lo : ℕ) (ss : List Service)
    → 0 < n
    → Above lo ss
    → Apart h n ss
    → (m : ℕ) × (find_insert_loc h (h + n - 1) p ss ≡ behind m)
unfolding find_insert_loc
find_insert_loc-Apart h n p lo [] pos above apart = (p, refl)
find_insert_loc-Apart h n p lo (s ∷ ss) pos above apart = elim apart.0 [
  | inl le ↦
      let (m, e) = find_insert_loc-Apart h n (p + 1) (past s) ss pos above.2 apart.1 in
      (m, passes h n p s ss above.1 pos le ∙ e)
  | inr le ↦ (p, stops h n p s ss pos le)
]

-- `s` is one of the services.
pub data In (s : Service) : List Service → Type 0 where
  here : {ss : List Service} → In s (s ∷ ss)
  there : {t : Service} {ss : List Service} → In s ss → In s (t ∷ ss)

pub In-insert_at : (s : Service) (k : ℕ) (ss : List Service) → In s (insert_at k s ss)
unfolding insert_at
In-insert_at s zero ss = here
In-insert_at s (suc k) [] = here
In-insert_at s (suc k) (t ∷ ss) = there (In-insert_at s k ss)

-- No other service is lost.
pub In-insert_at_other :
    (s t : Service) (k : ℕ) (ss : List Service) → In t ss → In t (insert_at k s ss)
unfolding insert_at
In-insert_at_other s t zero ss i = there i
In-insert_at_other s t (suc k) [] i = elim i [ ]
In-insert_at_other s t (suc k) (u ∷ ss) here = here
In-insert_at_other s t (suc k) (u ∷ ss) (there i) = there (In-insert_at_other s t k ss i)

pub In-Above :
    {s : Service} (lo : ℕ) {ss : List Service}
    → In s ss
    → Above lo ss
    → (lo ≤ s.declaration.handle) × Fits s
In-Above lo here above = (above.0, above.1)
In-Above lo (there {t} i) above =
    let (le, fits) = In-Above (past t) i above.2 in (omega arith, fits)

takes :
    (p : ℕ) (s : Service) (ss : List Service)
    → Fits s
    → find_insert_loc s.declaration.handle (past s - 1) p (s ∷ ss) ≡ taken s
unfolding find_insert_loc service_start
takes p s ss fits = ground (arith, service_end_lem s fits)

-- `find_insert_loc` meets the service that has just these handles.
pub find_insert_loc-In :
    {s : Service} (p lo : ℕ) {ss : List Service}
    → In s ss
    → Above lo ss
    → find_insert_loc s.declaration.handle (past s - 1) p ss ≡ taken s
find_insert_loc-In {s} p lo (here {ss}) above = takes p s ss above.1
find_insert_loc-In {s} p lo (there {t} {ss} i) above =
    let (le, fits) = In-Above (past t) i above.2 in
    passes s.declaration.handle s.num_handles p t ss above.1 fits.some_handle le
    ∙ find_insert_loc-In (p + 1) (past t) i above.2

-- `queue_find` meets it by its first handle.
find_service-In :
    {s : Service} (lo : ℕ) {ss : List Service}
    → In s ss
    → Above lo ss
    → find_service (find_service_for_handle s.declaration.handle) ss ≡ some s
unfolding find_service find_service_for_handle service_start
find_service-In {s} lo (here {ss}) above = ground (arith, service_end_lem s above.1)
find_service-In {s} lo (there {t} {ss} i) above =
    let (le, fits) = In-Above (past t) i above.2 in
    ground (arith, service_end_lem t above.1, find_service-In (past t) i above.2)

-- `gatt_db_get_attribute` at the first handle of a service returns its declaration.
pub get_attribute-In :
    {s : Service} (db : Db)
    → In s db.services
    → IsOrdered db
    → gatt_db_get_attribute db s.declaration.handle ≡ some s.declaration
unfolding gatt_db_get_attribute find_attribute
get_attribute-In {s} db i ordered =
    let (le, fits) = In-Above 1 i ordered in ground (arith, find_service-In 1 i ordered)
