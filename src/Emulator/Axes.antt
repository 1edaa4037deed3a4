-- ===== src/Emulator/Axes.antt =====
-- What it means that the emulator's axes are in the range of the hardware.
use rc_monitor.Base.{Bool, true, false, if◌then◌else◌, arith}
use rc_monitor.Base.Int.{ℤ, pos, negsuc, ◌-ℤ◌}
use rc_monitor.Payload.Ranges.{Between}
use rc_monitor.Emulator.{EmuState, clamp}
use rc_monitor.Emulator.Input.{clamp_axis, centred}

-- -660 to 660.
abbrev pub Axis : ℤ → Type 0
Axis v = Between 660 660 v

-- The six axes, and the wheel's movement.
abbrev pub axes : EmuState → ℤ × ℤ × ℤ × ℤ × ℤ × ℤ × ℤ
axes e = (
  e.stick_left_h, e.stick_left_v, e.stick_right_h, e.stick_right_v, e.left_wheel, e.right_wheel,
  e.right_wheel_delta,
)

-- All in range: the axes of the hardware, and a wheel that moved by at most 5 steps.
abbrev pub Ranges : ℤ × ℤ × ℤ × ℤ × ℤ × ℤ × ℤ → Type 0
Ranges a = Axis a.0 × Axis a.1 × Axis a.2 × Axis a.3 × Axis a.4 × Axis a.5 × Between 5 5 a.6

abbrev pub InRange : EmuState → Type 0
InRange e = Ranges (axes e)

abbrev pub Preserves : (EmuState → EmuState) → Type 0
Preserves f = (e : EmuState) → InRange e → InRange (f e)

pub if_InRange : (b : Bool) (d e : EmuState) → InRange d → InRange e → InRange (if b then d else e)
if_InRange true d e h k = h
if_InRange false d e h k = k

pub clamp_axis-Axis : (v : ℤ) → Axis (clamp_axis v)
unfolding clamp ◌-ℤ◌
clamp_axis-Axis (pos n) = ground arith
clamp_axis-Axis (negsuc n) = ground arith

pub zero-Axis : Axis (pos 0)
unfolding ◌-ℤ◌
zero-Axis = omega arith

pub small : (Between 5 5 (negsuc 4)) × (Between 5 5 (pos 5)) × (Between 5 5 (pos 0))
unfolding ◌-ℤ◌
small = omega arith

pub centred-InRange : InRange centred
centred-InRange = (zero-Axis, zero-Axis, zero-Axis, zero-Axis, zero-Axis, zero-Axis, small.2)
