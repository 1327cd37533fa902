-- ===== src/MiniPro/Session/Axis.antt =====
-- What the program makes of the position of a joystick axis.
use minipro.Base.{zero, suc, ◌≡◌, refl, arith, ◌==◌, ltb, if◌then◌else◌}
use minipro.Base.Words.{ℤ, pos, negsuc, IsInt16, to_uint16, to_int16}
use minipro.MiniPro.Session.{negate, abs, axis_command}

-- the speed that a position commands
abbrev pub commanded : ℤ → ℤ
commanded axis =
    if ltb (abs axis) 4000 then pos 0 else if abs axis == 32768 then axis else negate axis

-- An axis within 3999 of its centre commands 0, one further out the negated position, except for the
-- position -32768, whose negation wraps: full deflection to that side commands -32768, with the sign
-- of the axis.
pub axis_command_lem :
    (axis : ℤ) → IsInt16 axis → (axis_command axis ≡ commanded axis) × IsInt16 (axis_command axis)
unfolding axis_command to_int16 to_uint16
axis_command_lem (pos zero) h = (refl, omega arith)
axis_command_lem (pos (suc n)) h = ground arith
axis_command_lem (negsuc n) h = ground arith
