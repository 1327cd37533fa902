-- ===== src/MiniPro/Session.antt =====
-- `main` of test/minipro/t_minipro.cpp, the program that drives the miniPRO by joystick.
pub mod Axis
pub mod Decode
pub mod Trace
mod Tests
use minipro.Base.{ℕ, suc, zero, Option, none, some, List, [], ◌∷◌, ltb, if◌then◌else◌}
use minipro.Base.Words.{ℤ, pos, negsuc, to_uint16, to_int16}
use minipro.MiniPro.{
  GattClient, enable_notifications, disable_notifications, enter_remote_control_mode,
  exit_remote_control_mode, drive,
}

-- unary `-` and `abs` of `int`
abbrev pub negate : ℤ → ℤ
negate (pos zero) = pos zero
negate (pos (suc n)) = negsuc n
negate (negsuc n) = pos (suc n)

abbrev pub abs : ℤ → ℕ
abs (pos n) = n
abs (negsuc n) = suc n

abbrev pub zero_threshold : ℕ
zero_threshold = 4000

-- the argument of `drive` for the state of an axis, converted to `int16_t`
unfoldable pub axis_command : ℤ → ℤ
axis_command axis =
    let flipped = negate axis in
    let value = if ltb (abs flipped) zero_threshold then pos 0 else flipped in
    to_int16 (to_uint16 value)

infixl 5 ◌>>=◌
abbrev pub ◌>>=◌ : {S : Type 0} → Option S → (S → Option S) → Option S
none >>= k = none
some s >>= k = k s

-- the state of the left thumbstick's y and of the right thumbstick's x
pub record Sample : Type 0 where
  pub left_y : ℤ
  pub right_x : ℤ

module _ {S : Type 0} (client : GattClient S) where
  -- the loop, for the samples that it sees before `should_exit`
  unfoldable pub drive_loop : List Sample → S → Option S
  drive_loop [] s = some s
  drive_loop (sample ∷ samples) s =
      drive client (axis_command sample.left_y) (axis_command sample.right_x) s
      >>= drive_loop samples

  -- `main` from the connection on
  unfoldable pub run_session : List Sample → S → Option S
  run_session samples s =
      enable_notifications client s
      >>= enter_remote_control_mode client
      >>= drive_loop samples
      >>= drive client (pos 0) (pos 0)
      >>= exit_remote_control_mode client
      >>= disable_notifications client
