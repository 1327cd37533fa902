-- ===== src/Bluez/GattDb/Descriptors.antt =====
-- `gatt_db_service_foreach_desc`: the descriptors of one characteristic.
mod Tests
use minipro.Base.{
  ℕ, ◌+◌, ◌≡◌, ◌≢◌, refl, ap, ◌∙◌, Bool, true, false, not, ◌||◌, Option, none, some, List, [], ◌∷◌,
  ◌++◌, arith, ◌==◌, if◌then◌else◌, drop, get_elem?, length, map, All,
}
use minipro.Bluez.GattDb.{Attribute, Service, attributes, uuid_equal, characteristic_uuid}
use minipro.Bluez.GattDb.Lookup.{
  ends_descriptors, descriptor_loop, behind_value, foreach_desc_of, gatt_db_service_foreach_desc,
}

-- the slots are free up to the next characteristic or include, or to the end
abbrev pub Ends : List (Option Attribute) → Type 0
Ends [] = Unit {0}
Ends (none ∷ slots) = Ends slots
Ends (some a ∷ slots) = ends_descriptors a ≡ true

behind_value_lem :
    (slot i : ℕ) (c : Attribute) (v : Option Attribute) (before rest : List (Option Attribute))
    → slot ≡ i + length before
    → behind_value slot i (before ++ (some c ∷ v ∷ rest)) ≡ rest
unfolding behind_value
behind_value_lem slot i c v [] rest e = let same : (i == slot) ≡ true = ground arith in rw same
behind_value_lem slot i c v (a ∷ before) rest e =
    let other : (i == slot) ≡ false = ground arith in
    rw (other, behind_value_lem slot (i + 1) c v before rest (omega arith))

get_elem?-append :
    (c : Option Attribute) (before rest : List (Option Attribute))
    → get_elem? (before ++ (c ∷ rest)) (length before) ≡ some c
get_elem?-append c [] rest = refl
get_elem?-append c (a ∷ before) rest = get_elem?-append c before rest

descriptor_loop-Ends : (rest : List (Option Attribute)) → Ends rest → descriptor_loop rest ≡ []
unfolding descriptor_loop
descriptor_loop-Ends [] ends = refl
descriptor_loop-Ends (none ∷ rest) ends = descriptor_loop-Ends rest ends
descriptor_loop-Ends (some a ∷ rest) ends = rw ends

descriptor_loop_lem :
    (ds : List Attribute) (rest : List (Option Attribute))
    → All (λ d. ends_descriptors d ≡ false) ds
    → Ends rest
    → descriptor_loop (map (λ d. some d) ds ++ rest) ≡ ds
unfolding descriptor_loop
descriptor_loop_lem [] rest all ends = descriptor_loop-Ends rest ends
descriptor_loop_lem (d ∷ ds) rest all ends = rw (all.0, descriptor_loop_lem ds rest all.1 ends)

foreach_desc_of_lem :
    (c : Attribute) (v : Option Attribute) (ds : List Attribute)
    (before rest : List (Option Attribute))
    → uuid_equal characteristic_uuid c.uuid ≡ true
    → All (λ d. ends_descriptors d ≡ false) ds
    → Ends rest
    → foreach_desc_of (before ++ (some c ∷ v ∷ (map (λ d. some d) ds ++ rest))) (length before) ≡ ds
unfolding foreach_desc_of
foreach_desc_of_lem c v ds before rest is_char all ends =
    rw
      (
        foreach_desc_of,
        get_elem?-append (some c) before (v ∷ (map (λ d. some d) ds ++ rest)),
        is_char,
        behind_value_lem (length before) 0 c v before (map (λ d. some d) ds ++ rest) (omega arith),
      )
      (descriptor_loop_lem ds rest all ends)

-- In a service that holds a characteristic declaration, its value, descriptors and then another
-- characteristic, an include or no more, `gatt_db_service_foreach_desc` of the declaration visits just
-- these descriptors, in order, whatever stands before the declaration, and whatever handles the
-- attributes have.
pub foreach_desc_lem :
    (s : Service) (c : Attribute) (v : Option Attribute) (ds : List Attribute)
    (before rest : List (Option Attribute))
    → attributes s ≡ before ++ (some c ∷ v ∷ (map (λ d. some d) ds ++ rest))
    → uuid_equal characteristic_uuid c.uuid ≡ true
    → All (λ d. ends_descriptors d ≡ false) ds
    → Ends rest
    → gatt_db_service_foreach_desc s (length before) ≡ ds
unfolding gatt_db_service_foreach_desc
foreach_desc_lem s c v ds before rest slots is_char all ends =
    ap (λ (xs : List (Option Attribute)). foreach_desc_of xs (length before)) slots
    ∙ foreach_desc_of_lem c v ds before rest is_char all ends
