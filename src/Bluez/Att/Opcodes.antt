-- ===== src/Bluez/Att/Opcodes.antt =====
-- lib/bluez/att.c: what kind of PDU an opcode stands for, and which request a response answers.
use minipro.Base.{
  ℕ, ◌%◌, Bool, true, false, ◌&&◌, ◌||◌, List, [], ◌∷◌, ◌==◌, if◌then◌else◌, leb, ltb,
}
use minipro.Base.Words.{ℤ, pos, negsuc}

-- `enum att_op_type`
pub data OpType : Type 0 where
  request response command indication notification confirmation unknown : OpType

-- `==` on `enum att_op_type`
abbrev pub is_request : OpType → Bool
is_request request = true
is_request _ = false

abbrev pub is_indication : OpType → Bool
is_indication indication = true
is_indication _ = false

abbrev pub is_command : OpType → Bool
is_command command = true
is_command _ = false

abbrev pub is_unknown : OpType → Bool
is_unknown unknown = true
is_unknown _ = false

-- BT_ATT_OP_ERROR_RSP, BT_ATT_OP_HANDLE_VAL_CONF
abbrev pub error_rsp : ℕ
error_rsp = 0x01

abbrev pub handle_val_conf : ℕ
handle_val_conf = 0x1E

-- `att_opcode_type_table`, without the entry that ends it
abbrev pub opcode_type_table : List (ℕ × OpType)
opcode_type_table =
    (0x01, response)
    ∷ (0x02, request)
    ∷ (0x03, response)
    ∷ (0x04, request)
    ∷ (0x05, response)
    ∷ (0x06, request)
    ∷ (0x07, response)
    ∷ (0x08, request)
    ∷ (0x09, response)
    ∷ (0x0a, request)
    ∷ (0x0b, response)
    ∷ (0x0c, request)
    ∷ (0x0d, response)
    ∷ (0x0e, request)
    ∷ (0x0f, response)
    ∷ (0x10, request)
    ∷ (0x11, response)
    ∷ (0x12, request)
    ∷ (0x13, response)
    ∷ (0x52, command)
    ∷ (0xD2, command)
    ∷ (0x16, request)
    ∷ (0x17, response)
    ∷ (0x18, request)
    ∷ (0x19, response)
    ∷ (0x1B, notification)
    ∷ (0x1D, indication)
    ∷ (0x1E, confirmation)
    ∷ []

type_in : List (ℕ × OpType) → ℕ → OpType
type_in [] opcode = unknown
type_in ((o, t) ∷ rest) opcode = if o == opcode then t else type_in rest opcode

unfoldable pub get_op_type : ℕ → OpType
unfolding type_in
get_op_type opcode = type_in opcode_type_table opcode

-- `att_req_rsp_mapping_table`, without the entry that ends it
abbrev pub req_rsp_mapping_table : List (ℕ × ℕ)
req_rsp_mapping_table =
    (0x02, 0x03)
    ∷ (0x04, 0x05)
    ∷ (0x06, 0x07)
    ∷ (0x08, 0x09)
    ∷ (0x0a, 0x0b)
    ∷ (0x0c, 0x0d)
    ∷ (0x0e, 0x0f)
    ∷ (0x10, 0x11)
    ∷ (0x12, 0x13)
    ∷ (0x16, 0x17)
    ∷ (0x18, 0x19)
    ∷ []

request_in : List (ℕ × ℕ) → ℕ → ℕ
request_in [] rsp_opcode = 0
request_in ((q, r) ∷ rest) rsp_opcode = if r == rsp_opcode then q else request_in rest rsp_opcode

unfoldable pub get_req_opcode : ℕ → ℕ
unfolding request_in
get_req_opcode rsp_opcode = request_in req_rsp_mapping_table rsp_opcode

-- `opcode_match`; BT_ATT_ALL_REQUESTS is 0.
unfoldable pub opcode_match : (opcode test_opcode : ℕ) → Bool
unfolding get_op_type
opcode_match opcode test_opcode =
    let op_type = get_op_type test_opcode in
    if opcode == 0 && (is_request op_type || is_command op_type)
    then true
    else opcode == test_opcode

-- `opcode & ATT_OP_SIGNED_MASK` of a byte
abbrev pub is_signed : ℕ → Bool
is_signed opcode = leb 0x80 (opcode % 256)

-- `att_ecode_from_error`: ENOENT 2, ENOMEM 12, EOVERFLOW 75 and EALREADY 114
unfoldable pub ecode_from_error : ℤ → ℕ
ecode_from_error (pos err) = if ltb 0 err && ltb err 255 then err else 0x0E
ecode_from_error (negsuc n) =
    if n == 1
    then 0x01
    else if n == 11
    then 0x11
    else if n == 113
    then 0xfe
    else if n == 74
    then 0xff
    else 0x0E
