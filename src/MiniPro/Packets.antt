-- ===== src/MiniPro/Packets.antt =====
-- src/minipro/packet.cpp and the constructors of the packets that derive from it.
pub mod Frame
use minipro.Base.{ℕ, ◌+◌, ◌%◌, ◌^◌, ◌<◌, List, [], ◌∷◌, ◌++◌, length, All, ◌≤◌}
use minipro.Base.Bytes.{IsByte, le16, be16}
use minipro.Base.Words.{ℤ, to_uint16, xor_bits}

-- `Packet`, without `checksum_`, which is never read but for its size
pub record Packet : Type 0 where
  pub len : ℕ
  pub type : ℕ
  pub operation : ℕ
  pub parameter : ℕ
  pub payload : List ℕ

abbrev pub header : ℕ
header = 0x55aa

-- `sizeof(checksum_)`
abbrev pub checksum_size : ℕ
checksum_size = 2

abbrev pub command_type : ℕ
command_type = 0xa

abbrev pub control_drive_base : ℕ
control_drive_base = 0x03

abbrev pub enable_remote_control : ℕ
enable_remote_control = 0x7a

abbrev pub set_drive : ℕ
set_drive = 0x7b

-- the loop that adds the payload to `sum`, a `uint16_t`
unfoldable pub add_all : ℕ → List ℕ → ℕ
add_all sum [] = sum
add_all sum (val ∷ vals) = add_all ((sum + val) % 2 ^ 16) vals

-- `length_`, a `uint8_t`
unfoldable pub frame_length : List ℕ → ℕ
frame_length payload = (length payload + checksum_size) % 2 ^ 8

-- `sum ^ 0xffff`
unfoldable pub checksum_of : Packet → ℕ
checksum_of p =
    xor_bits 16 (add_all ((p.len + p.type + p.operation + p.parameter) % 2 ^ 16) p.payload) 0xffff

-- `get_bytes`: the bytes, and the packet with the length that it sets
unfoldable pub get_bytes : Packet → List ℕ × Packet
get_bytes p =
    let p' : Packet = record p { len = frame_length p.payload } in
    (
      be16 header
          ++ (p'.len
              ∷ p'.type
              ∷ p'.operation
              ∷ p'.parameter
              ∷ (p'.payload ++ le16 (checksum_of p'))),
      p',
    )

-- the constructor of `Packet`
unfoldable pub new_packet : (type operation parameter : ℕ) → List ℕ → Packet
new_packet type operation parameter payload = record {
  len = 0;
  type = type;
  operation = operation;
  parameter = parameter;
  payload = payload;
}

-- the constructors of `Drive`, `EnterRemoteControlMode` and `ExitRemoteControlMode`
unfoldable pub drive_packet : (throttle steering : ℕ) → Packet
drive_packet throttle steering =
    new_packet command_type control_drive_base set_drive (le16 throttle ++ le16 steering)

unfoldable pub enter_packet : Packet
enter_packet = new_packet command_type control_drive_base enable_remote_control (le16 0x0001)

unfoldable pub exit_packet : Packet
exit_packet = new_packet command_type control_drive_base enable_remote_control (le16 0x0000)

-- Every field is a byte, as its C++ type says.
pub record IsPacket (p : Packet) : Type 0 where
  pub type : p.type < 2 ^ 8
  pub operation : p.operation < 2 ^ 8
  pub parameter : p.parameter < 2 ^ 8
  pub payload : All IsByte p.payload
