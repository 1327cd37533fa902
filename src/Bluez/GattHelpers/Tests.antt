-- ===== src/Bluez/GattHelpers/Tests.antt =====
-- Discoveries and chains of results, and the theorems applied to them.
use minipro.Base.{
  ℕ, ◌+◌, ◌-◌, ◌≡◌, refl, Bool, true, false, none, some, List, [], ◌∷◌, arith, ◌==◌, if◌then◌else◌,
}
use minipro.Bluez.Uuid.{unspec}
use minipro.Bluez.GattHelpers.{Request, get_le16, result_append}
use minipro.Bluez.GattHelpers.Discover.{
  completes, Luck, begin, discover, read_by_grp_type_cb, find_by_type_val_cb, discover_chrcs_cb,
  discovery_op_complete,
}
use minipro.Bluez.GattHelpers.Ends.{
  service_discovery_ends, last_of_all, characteristic_discovery_endless,
}
use minipro.Bluez.GattHelpers.Entries.{short, long, GroupEntry, GroupResult}

abbrev lucky : ℕ → Luck
lucky round = record { mem = true; sends = true }

abbrev whole : Request
whole = begin 1 0xffff 0x2800 unspec

-- a service from 1 to 5, then one from 6 on, which ends the discovery
abbrev two_services : ℕ → (opcode : ℕ) → List ℕ → ℕ × List ℕ
two_services round opcode pdu =
    if get_le16 pdu == 1
    then (0x11, 6 ∷ 1 ∷ 0 ∷ 5 ∷ 0 ∷ 0x00 ∷ 0x18 ∷ [])
    else (0x11, 6 ∷ 6 ∷ 0 ∷ 0xff ∷ 0xff ∷ 0x01 ∷ 0x18 ∷ [])

found_two :
    discover 2 read_by_grp_type_cb lucky two_services 0x10 (1 ∷ 0 ∷ []) whole
    ≡ some (
      completes true 0,
      record whole {
        start_handle = 0;
        results =
            (record { opcode = 0x11; pdu = 1 ∷ 0 ∷ 5 ∷ 0 ∷ 0x00 ∷ 0x18 ∷ []; data_len = 6 })
            ∷ (record { opcode = 0x11; pdu = 6 ∷ 0 ∷ 0xff ∷ 0xff ∷ 0x01 ∷ 0x18 ∷ []; data_len = 6 })
            ∷ [];
      },
    )
unfolding discover read_by_grp_type_cb result_append discovery_op_complete
found_two = refl

service_discovery_ends_example :
    (success : Bool) × (ecode : ℕ) × (last : Request) × (discover
        (1 + (0xffff + 1 - 1))
        (if false then find_by_type_val_cb else read_by_grp_type_cb)
        lucky
        two_services
        0x10
        (1 ∷ 0 ∷ [])
        whole
      ≡ some (completes success ecode, last))
service_discovery_ends_example =
    service_discovery_ends false lucky two_services 0x10 (1 ∷ 0 ∷ []) whole (omega arith)

characteristic_discovery_endless_example :
    discover 3 discover_chrcs_cb lucky (λ _ _ _. (0x09, last_of_all)) 0x08 [] (begin 1 9 0 unspec)
    ≡ none
characteristic_discovery_endless_example =
    characteristic_discovery_endless 3 lucky 0x08 [] (begin 1 9 0 unspec) (omega arith)
      (omega arith) (λ round. (refl, refl))

abbrev battery : GroupEntry
battery = record { start = 1; end = 5; uuid = short 0x0f 0x18 }

abbrev own : GroupEntry
own = record {
  start = 6;
  end = 9;
  uuid = long (0 ∷ 1 ∷ 2 ∷ 3 ∷ 4 ∷ 5 ∷ 6 ∷ 7 ∷ 8 ∷ 9 ∷ 10 ∷ 11 ∷ 12 ∷ 13 ∷ 14 ∷ 15 ∷ []);
}

abbrev responses : List GroupResult
responses = (6, battery ∷ battery ∷ []) ∷ (20, own ∷ []) ∷ []
