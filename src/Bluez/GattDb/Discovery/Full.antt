-- ===== src/Bluez/GattDb/Discovery/Full.antt =====
-- Services that were filled by adding attributes keep their handles within their range.
use minipro.Base.{ℕ, zero, suc, ◌+◌, ◌≤◌, Option, none, some, List, [], ◌∷◌, arith}
use minipro.Bluez.GattDb.{Attribute, Service, attributes}
use minipro.Bluez.GattDb.Order.{past}
use minipro.Bluez.GattDb.Attributes.Dense.{IsDense, Filled, AllFree}
use minipro.Bluez.GattDb.Discovery.{Ranged, IsRanged}

Ranged-free :
    (lo hi : ℕ) (slots : List (Option Attribute)) → AllFree slots → lo ≤ hi → Ranged lo hi slots
Ranged-free lo hi [] free le = le
Ranged-free lo hi (none ∷ slots) free le = Ranged-free lo hi slots free le
Ranged-free lo hi (some a ∷ slots) free le = absurd free

Filled-Ranged :
    (lo hi k : ℕ) (slots : List (Option Attribute))
    → Filled lo k slots
    → lo + k ≤ hi
    → Ranged lo hi slots
Filled-Ranged lo hi zero slots filled le = Ranged-free lo hi slots filled (omega arith)
Filled-Ranged lo hi (suc k) [] filled le = absurd filled
Filled-Ranged lo hi (suc k) (none ∷ slots) filled le = absurd filled
Filled-Ranged lo hi (suc k) (some a ∷ slots) filled le =
    (omega arith, rw filled.0 (Filled-Ranged (lo + 1) hi k slots filled.1 (omega arith)))

-- Services that are filled by adding attributes are of this kind.
pub IsDense-IsRanged : (s : Service) (k : ℕ) → IsDense s k → k ≤ s.num_handles → IsRanged s
IsDense-IsRanged s k dense le =
    Filled-Ranged s.declaration.handle (past s) k (attributes s) dense.filled (omega arith)
