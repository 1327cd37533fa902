-- ===== src/MiniPro/Session/Decode.antt =====
-- The protocol as the receiver sees it: what each write to the miniPRO says.
use minipro.Base.{
  ℕ, ◌%◌, ◌/◌, ◌^◌, ◌<◌, ◌≡◌, refl, none, some, List, [], ◌∷◌, arith, ◌==◌, if◌then◌else◌,
}
use minipro.Base.Bytes.{be16, from_le16}
use minipro.Base.Words.{ℤ, pos, negsuc, IsInt16, to_uint16, to_int16, to_int16-to_uint16}
use minipro.MiniPro.Packets.{
  IsPacket, get_bytes, new_packet, drive_packet, enter_packet, exit_packet,
}
use minipro.MiniPro.Packets.Frame.{parse_frame, parse_frame-get_bytes}

-- a value for the client configuration, which GATT sends little-endian, and the commands
pub data Command : Type 0 where
  configure remote_control : ℕ → Command
  set_speed : (throttle steering : ℤ) → Command
  unknown : Command

unfoldable pub decode_payload : (parameter : ℕ) → List ℕ → Command
decode_payload parameter (a ∷ b ∷ []) =
    if parameter == 0x7a then remote_control (from_le16 a b) else unknown
decode_payload parameter (a ∷ b ∷ c ∷ d ∷ []) =
    if parameter == 0x7b
    then set_speed (to_int16 (from_le16 a b)) (to_int16 (from_le16 c d))
    else unknown
decode_payload parameter payload = unknown

unfoldable pub decode_config : List ℕ → Command
decode_config (a ∷ b ∷ []) = configure (from_le16 a b)
decode_config value = unknown

-- what a write of `value` to `handle` says
unfoldable pub decode : (handle : ℕ) → (value : List ℕ) → Command
decode handle value = if handle == 0x000c then decode_config value else elim (parse_frame value) [
  | none ↦ unknown
  | some (type, operation, parameter, payload) ↦ decode_payload parameter payload
]

drive_packet-IsPacket : (t s : ℕ) → IsPacket (drive_packet t s)
unfolding drive_packet new_packet
drive_packet-IsPacket t s = record {
  type = omega arith;
  operation = omega arith;
  parameter = omega arith;
  payload = omega arith;
}

pub word_lem : (v : ℕ) → v < 2 ^ 16 → from_le16 (v % 256) (v / 256 % 256) ≡ v
word_lem v h = omega arith

to_uint16_below : (z : ℤ) → to_uint16 z < 2 ^ 16
unfolding to_uint16
to_uint16_below (pos n) = omega arith
to_uint16_below (negsuc n) = omega arith

pub decode_speed :
    (throttle steering : ℤ)
    → IsInt16 throttle
    → IsInt16 steering
    → decode 0x000e (get_bytes (drive_packet (to_uint16 throttle) (to_uint16 steering))).0
      ≡ set_speed throttle steering
unfolding decode decode_payload drive_packet new_packet
decode_speed throttle steering ht hs =
    let t = to_uint16 throttle in
    let s = to_uint16 steering in
    let parsed = (parse_frame-get_bytes (drive_packet t s) (drive_packet-IsPacket t s)).0 in
    rw (
      parsed,
      word_lem t (to_uint16_below throttle),
      word_lem s (to_uint16_below steering),
      to_int16-to_uint16 throttle ht,
      to_int16-to_uint16 steering hs,
    )

pub decode_fixed :
    (decode 0x000e (get_bytes enter_packet).0 ≡ remote_control 1)
    × (decode 0x000e (get_bytes exit_packet).0 ≡ remote_control 0)
unfolding decode decode_payload enter_packet exit_packet new_packet
decode_fixed =
    let enter : IsPacket enter_packet = omega arith in
    let exit : IsPacket exit_packet = omega arith in
    (rw (parse_frame-get_bytes enter_packet enter).0, rw (parse_frame-get_bytes exit_packet exit).0)

pub decode_configs :
    (decode 0x000c (be16 1) ≡ configure 0x0100) × (decode 0x000c (be16 0) ≡ configure 0)
unfolding decode decode_config
decode_configs = (refl, refl)
