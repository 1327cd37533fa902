-- ===== src/Bluez/GattHelpers/Counts.antt =====
-- How many services a chain of results holds.
use minipro.Base.{
  ℕ, ◌*◌, ◌/◌, ◌^◌, ◌<◌, ◌≡◌, ◌⊎◌, inl, inr, refl, List, [], ◌∷◌, arith, length, length-append, All,
}
use minipro.Bluez.GattHelpers.{result_element_count, bt_gatt_result_service_count}
use minipro.Bluez.GattHelpers.Entries.{
  length-entry, WireUuid, short, long, IsAsLong, GroupEntry, entry_bytes, all_bytes, Fits,
  GroupResult, all_stored, services_in, all_services, IsGroupResult, entries_in,
}

-- the two lengths of entries
bytes_6 :
    (es : List GroupEntry) (data_len : ℕ)
    → All (Fits data_len) es
    → data_len ≡ 6
    → length (all_bytes es) ≡ 6 * length es
bytes_6 [] data_len fits e = omega arith
bytes_6 (x ∷ es) data_len fits e = omega (
  arith,
  bytes_6 es data_len fits.1 e,
  length-append (entry_bytes x) (all_bytes es),
  length-entry x data_len fits.0,
)

bytes_20 :
    (es : List GroupEntry) (data_len : ℕ)
    → All (Fits data_len) es
    → data_len ≡ 20
    → length (all_bytes es) ≡ 20 * length es
bytes_20 [] data_len fits e = omega arith
bytes_20 (x ∷ es) data_len fits e = omega (
  arith,
  bytes_20 es data_len fits.1 e,
  length-append (entry_bytes x) (all_bytes es),
  length-entry x data_len fits.0,
)

which_length :
    (uuid : WireUuid) (data_len : ℕ) → IsAsLong data_len uuid → (data_len ≡ 6) ⊎ (data_len ≡ 20)
which_length (short lo hi) data_len six = inl six
which_length (long bytes) data_len both = inr both.0

count_one : (g : GroupResult) → IsGroupResult g → length (all_bytes g.1) / g.0 ≡ length g.1
count_one (data_len, []) fits = elim fits [ ]
count_one (data_len, e ∷ es) fits = elim (which_length e.uuid data_len fits.0.2) [
  | inl six ↦ rw six (omega (arith, bytes_6 (e ∷ es) data_len fits six))
  | inr twenty ↦ rw twenty (omega (arith, bytes_20 (e ∷ es) data_len fits twenty))
]

pub count_lem :
    (gs : List GroupResult)
    → All IsGroupResult gs
    → entries_in gs < 2 ^ 32
    → result_element_count (all_stored gs) ≡ entries_in gs
unfolding result_element_count
count_lem [] fits small = refl
count_lem (g ∷ gs) fits small =
    let one = count_one g fits.0 in
    let more = count_lem gs fits.1 (omega arith) in rw (one, more) (omega arith)

pub service_count_lem :
    (gs : List GroupResult)
    → bt_gatt_result_service_count (all_stored gs) ≡ result_element_count (all_stored gs)
unfolding bt_gatt_result_service_count result_element_count
service_count_lem [] = refl
service_count_lem (g ∷ gs) = refl

length-services : (es : List GroupEntry) → length (services_in es) ≡ length es
length-services [] = refl
length-services (e ∷ es) = omega (arith, length-services es)

pub length-all_services : (gs : List GroupResult) → length (all_services gs) ≡ entries_in gs
length-all_services [] = refl
length-all_services (g ∷ gs) = omega (
  arith,
  length-append (services_in g.1) (all_services gs),
  length-services g.1,
  length-all_services gs,
)
