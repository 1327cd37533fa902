-- ===== src/Bluez/GattHelpers/Entries.antt =====
-- Responses to the discovery of services, entry by entry.
use mathlib.Core.List.{reverse}
use minipro.Base.{
  ℕ, suc, ◌+◌, ◌-◌, ◌^◌, ◌<◌, ◌≡◌, refl, sym, ap, ◌∙◌, some, List, [], ◌∷◌, ◌++◌, arith, length,
  take-length, take, drop, All,
}
use minipro.Base.Bytes.{le16}
use minipro.Bluez.Uuid.{bluetooth_base_uuid}
use minipro.Bluez.GattHelpers.{Result, Request, get_le16, convert_uuid_le, read_by_grp_type_rsp}
use minipro.Bluez.GattHelpers.Iter.{at, advance, ServiceFound, bt_gatt_iter_next_service}

-- a UUID in a response, the lowest byte first
pub data WireUuid : Type 0 where
  short : (lo hi : ℕ) → WireUuid
  long : List ℕ → WireUuid

abbrev pub wire_bytes : WireUuid → List ℕ
wire_bytes (short lo hi) = lo ∷ hi ∷ []
wire_bytes (long bytes) = bytes

-- the UUID in 128 bits, the highest byte first
abbrev pub full_uuid : WireUuid → List ℕ
full_uuid (short lo hi) = take 2 bluetooth_base_uuid ++ (hi ∷ lo ∷ drop 4 bluetooth_base_uuid)
full_uuid (long bytes) = reverse bytes

-- whether a UUID is written in the bytes that entries of this length leave for it
abbrev pub IsAsLong : ℕ → WireUuid → Type 0
IsAsLong data_len (short lo hi) = data_len ≡ 6
IsAsLong data_len (long bytes) = (data_len ≡ 20) × (length bytes ≡ 16)

-- a service in a response
pub record GroupEntry : Type 0 where
  pub start : ℕ
  pub end : ℕ
  pub uuid : WireUuid

-- the bytes of an entry, and of some
abbrev pub entry_bytes : GroupEntry → List ℕ
entry_bytes e = le16 e.start ++ (le16 e.end ++ wire_bytes e.uuid)

abbrev pub all_bytes : List GroupEntry → List ℕ
all_bytes [] = []
all_bytes (e ∷ es) = entry_bytes e ++ all_bytes es

abbrev pub service_of : GroupEntry → ServiceFound
service_of e = record { start = e.start; end = e.end; uuid = some (full_uuid e.uuid) }

-- handles of 16 bits, and a UUID of the length that the response says
abbrev pub Fits : ℕ → GroupEntry → Type 0
Fits data_len e = (e.start < 2 ^ 16) × (e.end < 2 ^ 16) × IsAsLong data_len e.uuid

-- the conversion of the UUID at the head of some bytes
convert_lem :
    (uuid : WireUuid) (rest : List ℕ) (data_len : ℕ)
    → IsAsLong data_len uuid
    → convert_uuid_le (wire_bytes uuid ++ rest) (data_len - 4) ≡ some (full_uuid uuid)
unfolding convert_uuid_le
convert_lem (short lo hi) rest data_len six = rw six refl
convert_lem (long bytes) rest data_len (twenty, sixteen) = rw twenty (
    ap (λ (l : List ℕ). some (reverse l))
      (ap (λ (n : ℕ). take n (bytes ++ rest)) (sym sixteen) ∙ take-length bytes rest))

length-wire :
    (uuid : WireUuid) (data_len : ℕ)
    → IsAsLong data_len uuid
    → suc (suc (suc (suc (length (wire_bytes uuid))))) ≡ data_len
length-wire (short lo hi) data_len six = omega arith
length-wire (long bytes) data_len both = omega arith

pub length-entry :
    (e : GroupEntry) (data_len : ℕ) → Fits data_len e → length (entry_bytes e) ≡ data_len
length-entry e data_len (s, t, long') = length-wire e.uuid data_len long'

pub read_entry :
    (op : Request) (e : GroupEntry) (rest : List ℕ) (r : Result) (rs : List Result) (pos : ℕ)
    → Fits r.data_len e
    → r.opcode ≡ read_by_grp_type_rsp
    → drop pos r.pdu ≡ entry_bytes e ++ rest
    → bt_gatt_iter_next_service op (at (r ∷ rs) pos) ≡ some (service_of e, advance r rs pos)
unfolding bt_gatt_iter_next_service
read_entry op e rest r rs pos fits code here =
    let uuid =
      ap (λ (l : List ℕ). convert_uuid_le (drop 4 l) (r.data_len - 4)) here
      ∙ convert_lem e.uuid rest r.data_len fits.2 in
    let first : get_le16 (drop pos r.pdu) ≡ e.start = ap get_le16 here ∙ omega arith in
    let second : get_le16 (drop 2 (drop pos r.pdu)) ≡ e.end =
      ap (λ (l : List ℕ). get_le16 (drop 2 l)) here ∙ omega arith in
    ground arith

-- a response to `read_by_grp_type`, as it is stored
abbrev pub GroupResult : Type 0
GroupResult = ℕ × List GroupEntry

abbrev pub stored : GroupResult → Result
stored (data_len, es) = record {
  opcode = read_by_grp_type_rsp;
  pdu = all_bytes es;
  data_len = data_len;
}

abbrev pub all_stored : List GroupResult → List Result
all_stored [] = []
all_stored (g ∷ gs) = stored g ∷ all_stored gs

-- what the responses say
abbrev pub services_in : List GroupEntry → List ServiceFound
services_in [] = []
services_in (e ∷ es) = service_of e ∷ services_in es

abbrev pub all_services : List GroupResult → List ServiceFound
all_services [] = []
all_services (g ∷ gs) = services_in g.1 ++ all_services gs

-- Every response has an entry at least, and entries of one length.
abbrev pub IsGroupResult : GroupResult → Type 0
IsGroupResult (data_len, []) = ⊥
IsGroupResult (data_len, e ∷ es) = All (Fits data_len) (e ∷ es)

-- how many entries the responses have
abbrev pub entries_in : List GroupResult → ℕ
entries_in [] = 0
entries_in (g ∷ gs) = length g.1 + entries_in gs
