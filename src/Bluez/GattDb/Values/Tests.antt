-- ===== src/Bluez/GattDb/Values/Tests.antt =====
-- Requests and a stored value, and the theorems applied to them.
use minipro.Base.{ℕ, ◌+◌, ◌≡◌, Bool, List, [], ◌∷◌, ◌++◌, arith, ◌==◌, drop, take}
use minipro.Bluez.Uuid.{uuid16}
use minipro.Bluez.GattDb.{Attribute}
use minipro.Bluez.GattDb.Values.{Pending, attribute_destroy, read_stored, write_stored}
use minipro.Bluez.GattDb.Values.Once.{
  Event, starts, finishes, expires, run, called, started, attribute_destroy-run,
}
use minipro.Bluez.GattDb.Values.Stored.{before, read_stored-write_stored}

abbrev is_seven : ℕ → Bool
is_seven c = c == 7

abbrev events : List (Event ℕ)
events = starts 7 ∷ starts 8 ∷ finishes 2 0 ∷ starts 7 ∷ expires 1 ∷ finishes 9 0 ∷ []

attribute_destroy-run_example :
    let p : Pending ℕ =
      attribute_destroy (run events (record { last_id = 0; requests = []; calls = [] })) in
    (called is_seven p.calls ≡ started is_seven events) × (p.requests ≡ [])
attribute_destroy-run_example = attribute_destroy-run is_seven events

abbrev level : Attribute
level = record {
  handle = 7;
  uuid = uuid16 0x2a19;
  permissions = 3;
  value = 1 ∷ 2 ∷ 3 ∷ [];
  read_func = 0;
  write_func = 0;
  user_data = 0;
}

read_stored-write_stored_example :
    let b = write_stored level 1 (9 ∷ []) [] in
    (read_stored b 1 ≡ (0, (9 ∷ []) ++ drop (1 + 1) level.value))
    × (take 1 b.value ≡ before level 1 [])
read_stored-write_stored_example =
    read_stored-write_stored level 1 (9 ∷ []) [] (omega arith) (omega arith) (omega arith)
