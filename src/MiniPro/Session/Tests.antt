-- ===== src/MiniPro/Session/Tests.antt =====
-- A client that notes what it is told, and the theorems on packets and sessions applied to it.
use minipro.Base.{
  ◌+◌, ◌%◌, ◌^◌, ◌≡◌, refl, true, none, some, List, [], ◌∷◌, ◌++◌, arith, leb, if◌then◌else◌,
}
use minipro.Base.Words.{pos, negsuc}
use minipro.MiniPro.Packets.{Packet, IsPacket, get_bytes}
use minipro.MiniPro.Packets.Frame.{parse_frame, parse_frame-get_bytes}
use minipro.MiniPro.{GattClient}
use minipro.MiniPro.Session.{Sample, run_session}
use minipro.MiniPro.Session.Decode.{Command, configure, remote_control, set_speed, decode}
use minipro.MiniPro.Session.Trace.{speeds, run_session-Delivers}

abbrev noting : GattClient (List Command)
noting = record {
  bt_gatt_client_write_without_response =
      λ handle signed value s. (true, s ++ (decode handle value ∷ []));
  bt_gatt_client_write_value = λ handle value s. (some 0, s ++ (decode handle value ∷ []));
}

abbrev one_packet : Packet
one_packet = record {
  len = 0;
  type = 0xa;
  operation = 3;
  parameter = 0x7b;
  payload = 1 ∷ 2 ∷ 3 ∷ 4 ∷ [];
}

one_packet-IsPacket : IsPacket one_packet
one_packet-IsPacket = omega arith

abbrev samples : List Sample
samples = record { left_y = negsuc 9999; right_x = pos 12 } ∷ []

parse_frame-get_bytes_example :
    (parse_frame (get_bytes one_packet).0
      ≡ (if leb 4 253 then some (0xa, 3, 0x7b, 1 ∷ 2 ∷ 3 ∷ 4 ∷ []) else none))
    × ((get_bytes one_packet).1 ≡ record one_packet { len = (4 + 2) % 2 ^ 8 })
parse_frame-get_bytes_example = parse_frame-get_bytes one_packet one_packet-IsPacket

run_session-Delivers_example :
    (t : List Command) × (run_session noting samples [] ≡ some t)
    × (t
        ≡ configure 0x0100
          ∷ remote_control 1
          ∷ (speeds samples ++ (set_speed (pos 0) (pos 0) ∷ remote_control 0 ∷ configure 0 ∷ [])))
run_session-Delivers_example =
    run_session-Delivers noting (λ s. s)
      ((λ handle signed value s. refl), λ handle value s. (refl, refl)) samples [] (omega arith)
