-- ===== src/MiniPro/Session/Trace.antt =====
-- What a miniPRO that follows the protocol is told in the course of a session.
use minipro.Base.{
  ℕ, ◌≡◌, refl, sym, ap, ◌∙◌, Bool, true, false, Option, some, List, [], ◌∷◌, ◌++◌, map, append-nil,
  append_assoc, arith, is_some, All,
}
use minipro.Base.Bytes.{be16}
use minipro.Base.Words.{ℤ, pos, IsInt16, to_uint16}
use minipro.MiniPro.Packets.{Packet, get_bytes, drive_packet, enter_packet, exit_packet}
use minipro.MiniPro.{
  GattClient, write_value, send_packet, write_config_value, enable_notifications,
  disable_notifications, enter_remote_control_mode, exit_remote_control_mode, drive,
}
use minipro.MiniPro.Session.{◌>>=◌, Sample, axis_command, drive_loop, run_session}
use minipro.MiniPro.Session.Axis.{commanded, axis_command_lem}
use minipro.MiniPro.Session.Decode.{
  Command, configure, remote_control, set_speed, decode, decode_speed, decode_fixed, decode_configs,
}

-- the speeds of the samples
abbrev pub speeds : List Sample → List Command
speeds samples = map (λ x. set_speed (commanded x.left_y) (commanded x.right_x)) samples

-- `client` carries out writes: one with a response begins and is answered, and each adds what it says
-- to what the miniPRO has been told.
abbrev pub Delivers : {S : Type 0} → GattClient S → (S → List Command) → Type 0
Delivers {S} client told =
    ((handle : ℕ) (signed_write : Bool) (value : List ℕ) (s : S)
      → told (client.bt_gatt_client_write_without_response handle signed_write value s).1
        ≡ told s ++ (decode handle value ∷ []))
    × ((handle : ℕ) (value : List ℕ) (s : S)
        → (is_some (client.bt_gatt_client_write_value handle value s).0 ≡ true)
          × (told (client.bt_gatt_client_write_value handle value s).1
              ≡ told s ++ (decode handle value ∷ [])))

module _ {S : Type 0} (client : GattClient S) (told : S → List Command)
    (delivers : Delivers client told) where
  abbrev Says : (S → Option S) → List Command → Type 0
  Says f cs = (s : S) → (t : S) × (f s ≡ some t) × (told t ≡ told s ++ cs)

  Says-then :
      (f g : S → Option S) (xs ys : List Command)
      → Says f xs
      → Says g ys
      → Says (λ s. f s >>= g) (xs ++ ys)
  Says-then f g xs ys hf hg s =
      let (t, et, tt') = hf s in
      let (u, eu, tu) = hg t in
      (u, rw et eu, tu ∙ (ap (λ cs. cs ++ ys) tt' ∙ append_assoc (told s) xs ys))

  send_lem : (p : Packet) → Says (send_packet client p) (decode 0x000e (get_bytes p).0 ∷ [])
  unfolding send_packet write_value
  send_lem p s =
      let value = (get_bytes p).0 in
      (
        (client.bt_gatt_client_write_without_response 0x000e false value s).1,
        refl,
        delivers.0 0x000e false value s,
      )

  config_lem : (v : ℕ) → Says (write_config_value client v) (decode 0x000c (be16 v) ∷ [])
  unfolding write_config_value write_value
  config_lem v s =
      let (begun, told') = delivers.1 0x000c (be16 v) s in
      ((client.bt_gatt_client_write_value 0x000c (be16 v) s).1, rw begun, told')

  drive_lem :
      (throttle steering : ℤ)
      → IsInt16 throttle
      → IsInt16 steering
      → Says (drive client throttle steering) (set_speed throttle steering ∷ [])
  unfolding drive
  drive_lem throttle steering ht hs =
      rw (decode_speed throttle steering ht hs) at
        (send_lem (drive_packet (to_uint16 throttle) (to_uint16 steering)))

  drive_loop_lem :
      (samples : List Sample)
      → All (λ x. IsInt16 x.left_y × IsInt16 x.right_x) samples
      → Says (drive_loop client samples) (speeds samples)
  unfolding drive_loop
  drive_loop_lem [] all s = (s, refl, sym (append-nil (told s)))
  drive_loop_lem (x ∷ samples) all s =
      let throttle = axis_command_lem x.left_y all.0.0 in
      let steering = axis_command_lem x.right_x all.0.1 in
      let speed = set_speed (axis_command x.left_y) (axis_command x.right_x) in
      let same : speed ∷ speeds samples ≡ speeds (x ∷ samples) = rw (throttle.0, steering.0) in
      let (t, e, told') =
        Says-then (drive client (axis_command x.left_y) (axis_command x.right_x))
          (drive_loop client samples) (speed ∷ []) (speeds samples)
          (drive_lem (axis_command x.left_y) (axis_command x.right_x) throttle.1 steering.1)
          (drive_loop_lem samples all.1) s in
      (t, e, told' ∙ ap (λ cs. told s ++ cs) same)

  regroup :
      (xs : List Command) (a b c : Command)
      → ((xs ++ (a ∷ [])) ++ (b ∷ [])) ++ (c ∷ []) ≡ xs ++ (a ∷ b ∷ c ∷ [])
  regroup [] a b c = refl
  regroup (x ∷ xs) a b c = ap (λ ys. x ∷ ys) (regroup xs a b c)

  -- A session ends, whatever the joystick does, and tells the miniPRO this: to set the notification
  -- configuration to 0x0100 (and not to 1, which the bytes would spell in the other order), to enter
  -- remote control, one speed for each sample, which for either axis is 0 in the dead zone and else the
  -- negated position (-32768 stays as it is), then to stop, to leave remote control and to clear the
  -- configuration. The positions are 16-bit numbers, and the GATT client carries out writes and
  -- answers those with a response.
  pub run_session-Delivers :
      (samples : List Sample) (s : S)
      → All (λ x. IsInt16 x.left_y × IsInt16 x.right_x) samples
      → (t : S) × (run_session client samples s ≡ some t)
        × (told t
            ≡ told s
              ++ (configure 0x0100
                  ∷ remote_control 1
                  ∷ (speeds samples
                      ++ (set_speed (pos 0) (pos 0) ∷ remote_control 0 ∷ configure 0 ∷ []))))
  unfolding run_session enable_notifications disable_notifications enter_remote_control_mode
      exit_remote_control_mode
  run_session-Delivers samples s all =
      let opened =
        Says-then (enable_notifications client) (enter_remote_control_mode client) _ _
          (config_lem 1) (send_lem enter_packet) in
      let driven =
        Says-then _ (drive_loop client samples) _ _ opened (drive_loop_lem samples all) in
      let stopped =
        Says-then _ (drive client (pos 0) (pos 0)) _ _ driven
          (drive_lem (pos 0) (pos 0) (omega arith) (omega arith)) in
      let left = Says-then _ (exit_remote_control_mode client) _ _ stopped (send_lem exit_packet) in
      let (t, e, told') = Says-then _ (disable_notifications client) _ _ left (config_lem 0) s in
      let same : ((((decode 0x000c (be16 1)
                  ∷ decode 0x000e (get_bytes enter_packet).0
                  ∷ speeds samples)
                ++ (set_speed (pos 0) (pos 0) ∷ []))
              ++ (decode 0x000e (get_bytes exit_packet).0 ∷ []))
            ++ (decode 0x000c (be16 0) ∷ []))
          ≡ configure 0x0100
            ∷ remote_control 1
            ∷ (speeds samples
                ++ (set_speed (pos 0) (pos 0) ∷ remote_control 0 ∷ configure 0 ∷ [])) =
        rw (decode_fixed.0, decode_fixed.1, decode_configs.0, decode_configs.1)
          (ap (λ cs. configure 0x0100 ∷ remote_control 1 ∷ cs)
            (regroup (speeds samples) (set_speed (pos 0) (pos 0)) (remote_control 0)
              (configure 0))) in
      (t, e, told' ∙ ap (λ cs. told s ++ cs) same)
