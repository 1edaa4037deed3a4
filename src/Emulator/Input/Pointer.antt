-- ===== src/Emulator/Input/Pointer.antt =====
-- emulator/rc_emulator.c: `map_mouse_to_stick` and `handle_mouse`.
use rc_monitor.Base.{ℕ, bit_and, Bool, true, not, ◌&&◌, ◌==◌, if◌then◌else◌, none, some}
use rc_monitor.Base.Int.{ℤ, pos, ◌+ℤ◌, ◌-ℤ◌, ◌*ℤ◌, leb_ℤ, eqb_ℤ, quot}
use rc_monitor.State.{sport, normal, tripod}
use rc_monitor.Emulator.{drag_none, drag_left_stick, drag_right_stick, EmuState, clamp}
use rc_monitor.Emulator.Input.{Curses, Mouse, clamp_axis, stick_max, wheel_step}

-- `map_mouse_to_stick`: the two deflections, with 3 for `ROW_STICK`.
unfoldable pub mouse_h : ℤ → ℤ → ℤ
mouse_h mx box_col =
    let ci = clamp (mx -ℤ (box_col +ℤ pos 1)) (pos 0) (pos 10) in
    quot ((ci -ℤ pos 5) *ℤ stick_max) 5

unfoldable pub mouse_v : ℤ → ℤ
mouse_v my = let ri = clamp (my -ℤ pos 4) (pos 0) (pos 4) in quot ((pos 2 -ℤ ri) *ℤ stick_max) 2

abbrev pub left_box : ℤ
left_box = pos 2

abbrev pub right_box : ℤ
right_box = pos 29

-- `map_mouse_to_stick(mx, my, COL_LSTICK, &e->stick_left_h, &e->stick_left_v)`, and of the right stick.
unfoldable pub move_left : EmuState → Mouse → EmuState
move_left e m = record e { stick_left_h = mouse_h m.x left_box; stick_left_v = mouse_v m.y }

unfoldable pub move_right : EmuState → Mouse → EmuState
move_right e m = record e { stick_right_h = mouse_h m.x right_box; stick_right_v = mouse_v m.y }

-- `lo <= v && v <= hi`
abbrev pub within : ℤ → ℕ → ℕ → Bool
within v lo hi = leb_ℤ (pos lo) v && leb_ℤ v (pos hi)

-- The labels in the rows of the buttons, of the joystick and of the modes.
unfoldable pub click_button : ℤ → EmuState → EmuState
click_button x e =
    if within x 12 18
    then record e { pause = true }
    else if within x 20 25
    then record e { gohome = true }
    else if within x 27 32
    then record e { shutter = true }
    else if within x 34 38
    then record e { record_button = true }
    else if within x 40 43
    then record e { custom1 = true }
    else if within x 45 48
    then record e { custom2 = true }
    else if within x 50 53
    then record e { custom3 = true }
    else e

unfoldable pub click_five_d : ℤ → EmuState → EmuState
click_five_d x e =
    if within x 12 14
    then record e { five_d_up = true }
    else if within x 16 18
    then record e { five_d_down = true }
    else if within x 20 22
    then record e { five_d_left = true }
    else if within x 24 26
    then record e { five_d_right = true }
    else if within x 28 32
    then record e { five_d_center = true }
    else e

unfoldable pub click_mode : ℤ → EmuState → EmuState
click_mode x e =
    if within x 12 16
    then record e { flight_mode = sport }
    else if within x 20 25
    then record e { flight_mode = normal }
    else if within x 29 34
    then record e { flight_mode = tripod }
    else e

-- Rows 12, 13 and 14: the three tests follow each other, and at most one holds.
unfoldable pub click_labels : EmuState → Mouse → EmuState
click_labels e m =
    let e = if eqb_ℤ m.y (pos 12) then click_button m.x e else e in
    let e = if eqb_ℤ m.y (pos 13) then click_five_d m.x e else e in
    if eqb_ℤ m.y (pos 14) then click_mode m.x e else e

-- `mev->bstate & mask`, as a condition
abbrev pub has : Mouse → ℕ → Bool
has m mask = not (bit_and m.bstate mask == 0)

unfoldable pub press : EmuState → Mouse → EmuState
press e m =
    if within m.y 4 8 && within m.x 3 13
    then move_left (record e { drag = drag_left_stick }) m
    else if within m.y 4 8 && within m.x 30 40
    then move_right (record e { drag = drag_right_stick }) m
    else click_labels e m

-- The scroll wheel: two tests in a row, the second only where the macro is defined.
unfoldable pub scroll : Curses → EmuState → Mouse → EmuState
scroll k e m =
    let e =
      if has m k.button4_pressed
      then record e { left_wheel = clamp_axis (e.left_wheel +ℤ wheel_step) }
      else e in
    elim k.button5_pressed [
      | none ↦ e
      | some mask ↦
          if has m mask
          then record e { left_wheel = clamp_axis (e.left_wheel -ℤ wheel_step) }
          else e
    ]

-- Motion with a drag under way; without one the event is left to the scroll wheel.
unfoldable pub drag_or_scroll : Curses → EmuState → Mouse → EmuState
drag_or_scroll k e m =
    if has m k.report_mouse_position
    then elim e.drag [
      | drag_none ↦ scroll k e m
      | drag_left_stick ↦ move_left e m
      | drag_right_stick ↦ move_right e m
    ]
    else scroll k e m

-- `handle_mouse`
unfoldable pub handle_mouse : Curses → EmuState → Mouse → EmuState
handle_mouse k e m =
    if has m k.button1_pressed
    then press e m
    else if has m k.button1_released
    then record e { drag = drag_none }
    else drag_or_scroll k e m
