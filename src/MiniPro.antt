-- ===== src/MiniPro.antt =====
-- src/minipro/minipro.cpp: the commands of the miniPRO, over `write_value` of src/bluetooth/le_client.cpp.
-- The GATT client of lib/bluez is a parameter.
pub mod Packets
pub mod Session
use minipro.Base.{ℕ, Bool, true, false, Option, none, some, List, if◌then◌else◌, is_some}
use minipro.Base.Bytes.{be16}
use minipro.Base.Words.{ℤ, to_uint16}
use minipro.MiniPro.Packets.{Packet, get_bytes, drive_packet, enter_packet, exit_packet}

-- The two calls that `write_value` makes, on a state `S`. The second answers with what its callback
-- is given, none if it could not begin.
pub record GattClient (S : Type 0) : Type 0 where
  pub bt_gatt_client_write_without_response :
      (handle : ℕ) → (signed_write : Bool) → (value : List ℕ) → S → Bool × S
  pub bt_gatt_client_write_value : (handle : ℕ) → (value : List ℕ) → S → Option ℕ × S

module _ {S : Type 0} (client : GattClient S) where
  -- `LEClient::write_value`; `none` when it waits for ever, for a callback that is never made.
  unfoldable pub write_value :
      (handle : ℕ) → (value : List ℕ) → (without_response signed_write : Bool) → S → Option S
  write_value handle value true signed_write s =
      some (client.bt_gatt_client_write_without_response handle signed_write value s).1
  write_value handle value false signed_write s =
      let (answer, s') = client.bt_gatt_client_write_value handle value s in
      if is_some answer then some s' else none

  abbrev pub config_service_handle : ℕ
  config_service_handle = 0x000c

  abbrev pub tx_service_handle : ℕ
  tx_service_handle = 0x00e

  unfoldable pub send_packet : Packet → S → Option S
  send_packet packet = write_value tx_service_handle (get_bytes packet).0 true false

  unfoldable pub write_config_value : (value : ℕ) → S → Option S
  write_config_value value = write_value config_service_handle (be16 value) false false

  unfoldable pub enable_notifications : S → Option S
  enable_notifications = write_config_value 0x0001

  unfoldable pub disable_notifications : S → Option S
  disable_notifications = write_config_value 0x0000

  unfoldable pub enter_remote_control_mode : S → Option S
  enter_remote_control_mode = send_packet enter_packet

  unfoldable pub exit_remote_control_mode : S → Option S
  exit_remote_control_mode = send_packet exit_packet

  -- of two `int16_t`
  unfoldable pub drive : (throttle steering : ℤ) → S → Option S
  drive throttle steering = send_packet (drive_packet (to_uint16 throttle) (to_uint16 steering))
