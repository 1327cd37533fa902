-- ===== src/Bluez/GattClient/Short.antt =====
-- lib/bluez/gatt-client.c: reads and writes of values that fit in one PDU.
use minipro.Base.{
  ℕ, ◌+◌, ◌-◌, ◌*◌, ◌^◌, ◌≤◌, ◌<◌, ◌≡◌, ◌⊎◌, inl, inr, refl, ap₂, Bool, true, false, not, ◌&&◌,
  Option, none, some, List, [], ◌∷◌, ◌++◌, ◌==◌, ltb, arith, if_lem, if◌then◌else◌, length, All,
}
use minipro.Base.Bytes.{le16, from_le16}
use minipro.Bluez.Att.Opcodes.{error_rsp}
use minipro.Bluez.Att.{Att}
use minipro.Bluez.Att.Life.{bt_att_get_security}
use minipro.Bluez.GattClient.{Client}
use minipro.Bluez.GattClient.LongWrite.{request_id, request_create, refused}
use minipro.Bluez.GattHelpers.{process_error}

-- the opcodes of short reads and writes
abbrev pub read_req : ℕ
read_req = 0x0A

abbrev pub read_rsp : ℕ
read_rsp = 0x0B

abbrev pub read_mult_req : ℕ
read_mult_req = 0x0E

abbrev pub read_mult_rsp : ℕ
read_mult_rsp = 0x0F

abbrev pub write_req : ℕ
write_req = 0x12

abbrev pub write_rsp : ℕ
write_rsp = 0x13

abbrev pub write_cmd : ℕ
write_cmd = 0x52

abbrev pub signed_write_cmd : ℕ
signed_write_cmd = 0xD2

-- what the callback of a read gets: an empty value is NULL, whatever its length is said to be.
pub record ReadDone : Type 0 where
  pub success : Bool
  pub att_ecode : ℕ
  pub value : List ℕ
  pub value_length : ℕ

-- a read that has no value to give
abbrev pub read_failed : (opcode : ℕ) (pdu : List ℕ) (value_length : ℕ) → ReadDone
read_failed opcode pdu value_length = record {
  success = false;
  att_ecode = if opcode == error_rsp then process_error pdu else 0;
  value = [];
  value_length = value_length;
}

abbrev pub read_done : List ℕ → ReadDone
read_done pdu = record { success = true; att_ecode = 0; value = pdu; value_length = length pdu }

-- `read_cb`: the length is that of the response, also where the value is NULL.
unfoldable pub read_cb : (opcode : ℕ) → List ℕ → ReadDone
read_cb opcode pdu =
    if not (opcode == read_rsp) then read_failed opcode pdu (length pdu) else read_done pdu

unfoldable pub read_multiple_cb : (opcode : ℕ) → List ℕ → ReadDone
read_multiple_cb opcode pdu =
    if not (opcode == read_mult_rsp) then read_failed opcode pdu 0 else read_done pdu

-- `write_cb`: success and the error code; an empty `pdu` is NULL.
unfoldable pub write_cb : (opcode : ℕ) → List ℕ → Bool × ℕ
write_cb opcode pdu =
    if opcode == error_rsp
    then (false, process_error pdu)
    else (opcode == write_rsp && length pdu == 0, 0)

-- What is given to `bt_att_send`: an opcode and the bytes behind it.
abbrev pub Ask : Type 0
Ask = ℕ × List ℕ

-- A request is made and given to the bearer: its id or 0, and the client.
unfoldable pub begin_request : (sends : ℕ → Bool) → Ask → Client → ℕ × Client
unfolding request_create refused
begin_request sends (opcode, pdu) c =
    if sends c.attempts
    then (
      request_id c,
      record (request_create c) {
        attempts = c.attempts + 1;
        sent = record { opcode = opcode; pdu = pdu } ∷ c.sent;
      },
    )
    else (0, refused (request_create c))

unfoldable pub bt_gatt_client_read_value :
    (sends : ℕ → Bool) (value_handle : ℕ) → Client → ℕ × Client
unfolding begin_request
bt_gatt_client_read_value sends value_handle = begin_request sends (read_req, le16 value_handle)

abbrev pub all_le16 : List ℕ → List ℕ
all_le16 [] = []
all_le16 (handle ∷ handles) = le16 handle ++ all_le16 handles

-- what `bt_gatt_client_read_multiple` asks of up to 255 handles: nothing for one handle, nor for more than fit
unfoldable pub multiple_ask : (mtu : ℕ) (handles : List ℕ) → Option Ask
multiple_ask mtu handles =
    if ltb (length handles) 2
    then none
    else if ltb (mtu - 1) (length handles * 2)
    then none
    else some (read_mult_req, all_le16 handles)

unfoldable pub bt_gatt_client_read_multiple :
    (sends : ℕ → Bool) (handles : List ℕ) → Client → ℕ × Client
unfolding begin_request multiple_ask
bt_gatt_client_read_multiple sends handles c = elim (multiple_ask c.mtu handles) [
  | none ↦ (0, c)
  | some ask ↦ begin_request sends ask c
]

-- the opcode of a write without response: BT_SECURITY_LOW is 1, and no level is an error, below it
abbrev pub cmd_opcode : (signed_write : Bool) (security : Option ℕ) → ℕ
cmd_opcode false security = write_cmd
cmd_opcode true none = signed_write_cmd
cmd_opcode true (some level) = if ltb 1 level then write_cmd else signed_write_cmd

unfoldable pub bt_gatt_client_write_without_response :
    (sends : ℕ → Bool) (att : Att) (value_handle : ℕ) (signed_write : Bool) (value : List ℕ)
    → Client
    → ℕ × Client
unfolding begin_request bt_att_get_security
bt_gatt_client_write_without_response sends att value_handle signed_write value =
    begin_request sends
      (cmd_opcode signed_write (bt_att_get_security att), le16 value_handle ++ value)

unfoldable pub bt_gatt_client_write_value :
    (sends : ℕ → Bool) (value_handle : ℕ) (value : List ℕ) → Client → ℕ × Client
unfolding begin_request
bt_gatt_client_write_value sends value_handle value =
    begin_request sends (write_req, le16 value_handle ++ value)

-- the handles that a server reads from the bytes of the request
abbrev pub handles_of : List ℕ → List ℕ
handles_of [] = []
handles_of (lo ∷ []) = []
handles_of (lo ∷ hi ∷ rest) = from_le16 lo hi ∷ handles_of rest

all_le16-length : (handles : List ℕ) → length (all_le16 handles) ≡ length handles * 2
all_le16-length [] = omega arith
all_le16-length (handle ∷ handles) = omega (arith, all_le16-length handles)

handles_of-all_le16 :
    (handles : List ℕ) → All (λ h. h < 2 ^ 16) handles → handles_of (all_le16 handles) ≡ handles
handles_of-all_le16 [] small = refl
handles_of-all_le16 (handle ∷ handles) small =
    let low = small.0 in
    ap₂ (λ (h : ℕ) (hs : List ℕ). h ∷ hs) (omega arith) (handles_of-all_le16 handles small.1)

-- a request for these handles, or the reason why there is none
abbrev pub IsRequestFor : (mtu : ℕ) (handles : List ℕ) → Option Ask → Type 0
IsRequestFor mtu handles none = (length handles < 2) ⊎ (mtu < 1 + length handles * 2)
IsRequestFor mtu handles (some ask) =
    (2 ≤ length handles) × (1 + length ask.1 ≤ mtu) × (handles_of ask.1 ≡ handles)

-- For two handles or more that fit in a PDU with its opcode, and for no others, a request is made; it fits,
-- and a server that takes it apart finds these handles, in their order.
pub multiple_ask_lem :
    (mtu : ℕ) (handles : List ℕ)
    → 23 ≤ mtu
    → All (λ h. h < 2 ^ 16) handles
    → IsRequestFor mtu handles (multiple_ask mtu handles)
unfolding multiple_ask
multiple_ask_lem mtu handles large small =
    let P = IsRequestFor mtu handles in
    let size = all_le16-length handles in
    if_lem P (ltb (length handles) 2) (λ few. inl (ground arith))
      (λ enough.
        if_lem P (ltb (mtu - 1) (length handles * 2)) (λ many. inr (ground arith))
          (λ fits. (ground arith, ground arith, handles_of-all_le16 handles small)))
