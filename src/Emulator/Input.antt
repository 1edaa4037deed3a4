-- ===== src/Emulator/Input.antt =====
-- emulator/rc_emulator.c: the input handler `handle_key`, and `decay_sticks`;
-- `handle_mouse` is in the child.
-- The codes of keys and mouse events are those of the curses library, which is not part of the
-- repository: they are a parameter, and nothing is assumed of their values.
pub mod Pointer
use rc_monitor.Base.{
  ℕ, bit_and, List, [], ◌∷◌, ◌++◌, Bool, true, false, not, ◌&&◌, ◌==◌, if◌then◌else◌, Option, none,
  some,
}
use rc_monitor.Base.Int.{ℤ, pos, negsuc, ◌+ℤ◌, ◌-ℤ◌, ◌*ℤ◌, leb_ℤ, eqb_ℤ, quot}
use rc_monitor.State.{sport, normal, tripod}
use rc_monitor.Emulator.{DragTarget, drag_none, drag_left_stick, drag_right_stick, EmuState, clamp}

-- What the emulator takes from curses. `BUTTON5_PRESSED` is not defined in every version.
pub record Curses : Type 0 where
  pub key_up : ℕ
  pub key_down : ℕ
  pub key_left : ℕ
  pub key_right : ℕ
  pub key_mouse : ℕ
  pub button1_pressed : ℕ
  pub button1_released : ℕ
  pub button4_pressed : ℕ
  pub button5_pressed : Option ℕ
  pub report_mouse_position : ℕ

-- `MEVENT`, as far as it is read.
pub record Mouse : Type 0 where
  pub x : ℤ
  pub y : ℤ
  pub bstate : ℕ

-- `STICK_MAX`, `STICK_STEP`, `WHEEL_MAX`, `WHEEL_STEP`
abbrev pub stick_max : ℤ
stick_max = pos 660

abbrev pub stick_step : ℤ
stick_step = pos 66

abbrev pub wheel_max : ℤ
wheel_max = pos 660

abbrev pub wheel_step : ℤ
wheel_step = pos 33

-- `clamp(v, -STICK_MAX, STICK_MAX)`, and the same of a wheel.
abbrev pub clamp_axis : ℤ → ℤ
clamp_axis v = clamp v (negsuc 659) (pos 660)

-- `memset(e, 0, sizeof(*e))` and the flight mode after it.
abbrev pub centred : EmuState
centred = record {
  stick_left_h = pos 0;
  stick_left_v = pos 0;
  stick_right_h = pos 0;
  stick_right_v = pos 0;
  left_wheel = pos 0;
  right_wheel = pos 0;
  right_wheel_delta = pos 0;
  pause = false;
  gohome = false;
  shutter = false;
  record_button = false;
  custom1 = false;
  custom2 = false;
  custom3 = false;
  five_d_up = false;
  five_d_down = false;
  five_d_left = false;
  five_d_right = false;
  five_d_center = false;
  flight_mode = normal;
  drag = drag_none;
}

-- The cases of the `switch` in `handle_key`: a key and what it does.
abbrev pub Case : Type 0
Case = ℕ × (EmuState → EmuState)

abbrev pub stick_cases : Curses → List Case
stick_cases k =
    (119, λ e. record e { stick_left_v = clamp_axis (e.stick_left_v +ℤ stick_step) })
    ∷ (115, λ e. record e { stick_left_v = clamp_axis (e.stick_left_v -ℤ stick_step) })
    ∷ (97, λ e. record e { stick_left_h = clamp_axis (e.stick_left_h -ℤ stick_step) })
    ∷ (100, λ e. record e { stick_left_h = clamp_axis (e.stick_left_h +ℤ stick_step) })
    ∷ (k.key_up, λ e. record e { stick_right_v = clamp_axis (e.stick_right_v +ℤ stick_step) })
    ∷ (k.key_down, λ e. record e { stick_right_v = clamp_axis (e.stick_right_v -ℤ stick_step) })
    ∷ (k.key_left, λ e. record e { stick_right_h = clamp_axis (e.stick_right_h -ℤ stick_step) })
    ∷ (k.key_right, λ e. record e { stick_right_h = clamp_axis (e.stick_right_h +ℤ stick_step) })
    ∷ []

abbrev pub button_cases : List Case
button_cases =
    (112, λ e. record e { pause = true })
    ∷ (104, λ e. record e { gohome = true })
    ∷ (122, λ e. record e { shutter = true })
    ∷ (120, λ e. record e { record_button = true })
    ∷ (49, λ e. record e { custom1 = true })
    ∷ (50, λ e. record e { custom2 = true })
    ∷ (51, λ e. record e { custom3 = true })
    ∷ (105, λ e. record e { five_d_up = true })
    ∷ (107, λ e. record e { five_d_down = true })
    ∷ (106, λ e. record e { five_d_left = true })
    ∷ (108, λ e. record e { five_d_right = true })
    ∷ (111, λ e. record e { five_d_center = true })
    ∷ []

abbrev pub mode_cases : List Case
mode_cases =
    (91, λ e. record e { flight_mode = sport })
    ∷ (93, λ e. record e { flight_mode = normal })
    ∷ (92, λ e. record e { flight_mode = tripod })
    ∷ []

abbrev pub wheel_cases : List Case
wheel_cases =
    (45, λ e. record e { left_wheel = clamp_axis (e.left_wheel -ℤ wheel_step) })
    ∷ (61, λ e. record e { left_wheel = clamp_axis (e.left_wheel +ℤ wheel_step) })
    ∷ (57, λ e. record e { right_wheel = clamp_axis (e.right_wheel -ℤ wheel_step) })
    ∷ (48, λ e. record e { right_wheel = clamp_axis (e.right_wheel +ℤ wheel_step) })
    ∷ (44, λ e. record e { right_wheel_delta = negsuc 4 })
    ∷ (46, λ e. record e { right_wheel_delta = pos 5 })
    ∷ (114, λ e. centred)
    ∷ []

-- A `switch`: the case with the label `ch`, or nothing.
unfoldable pub switch : List Case → ℕ → EmuState → EmuState
switch [] ch e = e
switch (c ∷ cs) ch e = let rest = switch cs ch e in if c.0 == ch then c.1 e else rest

-- `handle_key`
unfoldable pub handle_key : Curses → EmuState → ℕ → EmuState
unfolding switch
handle_key k e ch = switch (stick_cases k ++ (button_cases ++ (mode_cases ++ wheel_cases))) ch e

-- The two conditions at the front of `decay_sticks`.
unfoldable pub decay_left : DragTarget → EmuState → EmuState
decay_left drag_left_stick e = e
decay_left drag_none e = record e {
  stick_left_h = quot e.stick_left_h 2;
  stick_left_v = quot e.stick_left_v 2;
}
decay_left drag_right_stick e = record e {
  stick_left_h = quot e.stick_left_h 2;
  stick_left_v = quot e.stick_left_v 2;
}

unfoldable pub decay_right : DragTarget → EmuState → EmuState
decay_right drag_right_stick e = e
decay_right drag_none e = record e {
  stick_right_h = quot e.stick_right_h 2;
  stick_right_v = quot e.stick_right_v 2;
}
decay_right drag_left_stick e = record e {
  stick_right_h = quot e.stick_right_h 2;
  stick_right_v = quot e.stick_right_v 2;
}

-- `decay_sticks`
unfoldable pub decay_sticks : EmuState → EmuState
decay_sticks e = record (decay_right e.drag (decay_left e.drag e)) {
  pause = false;
  gohome = false;
  shutter = false;
  record_button = false;
  custom1 = false;
  custom2 = false;
  custom3 = false;
  five_d_up = false;
  five_d_down = false;
  five_d_left = false;
  five_d_right = false;
  five_d_center = false;
  right_wheel_delta = pos 0;
}
