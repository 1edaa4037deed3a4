-- ===== src/Emulator/Range.antt =====
-- The emulator's axes stay in the range of the hardware, whatever the input.
pub mod Keys
pub mod Clicks
use rc_monitor.Base.{
  ℕ, ◌≡◌, List, [], ◌∷◌, ◌++◌, All, All-append, Bool, true, false, subst, sym, refl, ◌∙◌, Option,
  ◌&&◌, if◌then◌else◌, ◌==◌, arith, none, some,
}
use rc_monitor.Base.Int.{ℤ, pos, negsuc, ◌+ℤ◌, ◌-ℤ◌, ◌*ℤ◌, ◌≤ℤ◌, eqb_ℤ, quot}
use rc_monitor.Payload.Ranges.{Between}
use rc_monitor.Emulator.{DragTarget, drag_none, drag_left_stick, drag_right_stick, EmuState, clamp}
use rc_monitor.Emulator.Input.{
  Curses, Mouse, clamp_axis, centred, stick_cases, button_cases, mode_cases, wheel_cases, switch,
  handle_key, decay_left, decay_right, decay_sticks, wheel_step,
}
use rc_monitor.Emulator.Input.Pointer.{
  mouse_h, mouse_v, move_left, move_right, click_button, click_five_d, click_mode, click_labels,
  press, scroll, drag_or_scroll, handle_mouse, left_box, right_box, has, within,
}
use rc_monitor.Emulator.Axes.{
  Axis, axes, Ranges, InRange, Preserves, if_InRange, clamp_axis-Axis, zero-Axis, small,
  centred-InRange,
}
use rc_monitor.Emulator.Range.Keys.{handle_key-Preserves}
use rc_monitor.Emulator.Range.Clicks.{handle_mouse-Preserves}

half-Axis : (v : ℤ) → Axis v → Axis (quot v 2)
unfolding quot ◌-ℤ◌
half-Axis (pos n) h = ground arith
half-Axis (negsuc n) h = ground arith

decay_left-Preserves : (d : DragTarget) → Preserves (decay_left d)
unfolding decay_left
decay_left-Preserves drag_left_stick e h = h
decay_left-Preserves drag_none e h =
    (half-Axis e.stick_left_h h.0, half-Axis e.stick_left_v h.1, h.2, h.3, h.4, h.5, h.6)
decay_left-Preserves drag_right_stick e h =
    (half-Axis e.stick_left_h h.0, half-Axis e.stick_left_v h.1, h.2, h.3, h.4, h.5, h.6)

decay_right-Preserves : (d : DragTarget) → Preserves (decay_right d)
unfolding decay_right
decay_right-Preserves drag_right_stick e h = h
decay_right-Preserves drag_none e h =
    (h.0, h.1, half-Axis e.stick_right_h h.2, half-Axis e.stick_right_v h.3, h.4, h.5, h.6)
decay_right-Preserves drag_left_stick e h =
    (h.0, h.1, half-Axis e.stick_right_h h.2, half-Axis e.stick_right_v h.3, h.4, h.5, h.6)

pub decay_sticks-Preserves : Preserves decay_sticks
unfolding decay_sticks
decay_sticks-Preserves e h =
    let k = decay_right-Preserves e.drag (decay_left e.drag e) (decay_left-Preserves e.drag e h) in
    (k.0, k.1, k.2, k.3, k.4, k.5, small.2)

-- Whatever the codes of the keys and of the mouse events, `handle_key`, `handle_mouse` and
-- `decay_sticks` keep the six axes between -660 and 660 and the wheel's movement between -5 and 5.
pub input-InRange :
    (k : Curses) (e : EmuState) (ch : ℕ) (m : Mouse)
    → InRange e
    → InRange (handle_key k e ch) × InRange (handle_mouse k e m) × InRange (decay_sticks e)
input-InRange k e ch m h =
    (handle_key-Preserves k ch e h, handle_mouse-Preserves k m e h, decay_sticks-Preserves e h)
