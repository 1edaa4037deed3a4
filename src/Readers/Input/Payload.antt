-- ===== src/Readers/Input/Payload.antt =====
-- The payload that InputEventReader builds, decoded.
use rc_monitor.Base.{◌≡◌, refl, ap, ap₂, ◌∙◌, arith, false, length, some}
use rc_monitor.Base.Int.{ℤ, pos, sub_ℕ, ◌+ℤ◌, ◌-ℤ◌}
use rc_monitor.State.{RcState, sport}
use rc_monitor.Payload.{parse_payload}
use rc_monitor.Emulator.{
  EmuState, drag_none, build_payload, buttons_byte, joystick_byte, mode_byte, delta_byte,
  put_u16_le, clamp,
}
use rc_monitor.Emulator.RoundTrip.{shown, FitsAxis, FitsAxes, parse_payload-build_payload}
use rc_monitor.Emulator.Session.{zeroed}
use rc_monitor.Readers.Input.{Sticks, put_le16, input_payload}

-- The controller that shows the sticks and nothing else.
abbrev pub controller : Sticks → EmuState
controller s = record {
  stick_left_h = s.left_h;
  stick_left_v = s.left_v;
  stick_right_h = s.right_h;
  stick_right_v = s.right_v;
  left_wheel = pos 0;
  right_wheel = pos 0;
  right_wheel_delta = pos 0;
  pause = false;
  gohome = false;
  shutter = false;
  record_button = false;
  custom1 = false;
  custom2 = false;
  custom3 = false;
  five_d_up = false;
  five_d_down = false;
  five_d_left = false;
  five_d_right = false;
  five_d_center = false;
  flight_mode = sport;
  drag = drag_none;
}

centre_comm : (v : ℤ) → pos 0x400 +ℤ v ≡ v +ℤ pos 0x400
unfolding ◌+ℤ◌
centre_comm v = ap₂ sub_ℕ (omega arith) (omega arith)

-- The two encoders of the repository agree.
pub input_payload-controller : (s : Sticks) → input_payload s ≡ build_payload (controller s)
unfolding input_payload build_payload put_le16 buttons_byte joystick_byte mode_byte delta_byte
    put_u16_le clamp ◌+ℤ◌
input_payload-controller s =
    rw (centre_comm s.right_h, centre_comm s.right_v, centre_comm s.left_v, centre_comm s.left_h)
      refl

-- The four values fit an `int16_t`.
pub record FitSticks (s : Sticks) : Type 0 where
  pub right_h : FitsAxis s.right_h
  pub right_v : FitsAxis s.right_v
  pub left_v : FitsAxis s.left_v
  pub left_h : FitsAxis s.left_h

-- A state with these sticks, every button off, and the wheels at rest.
abbrev pub sticks_only : Sticks → RcState
sticks_only s = record zeroed {
  stick_right = record { horizontal = s.right_h; vertical = s.right_v };
  stick_left = record { horizontal = s.left_h; vertical = s.left_v };
}

-- Where the four values fit an int16_t, the 17 bytes of buildPayload are those that the emulator's
-- encoder writes for a controller with these sticks, and rcm_parse_payload makes of them a state with
-- these sticks, every button off, the wheels at rest and the mode Sport.
pub parse_payload-input_payload :
    (s : Sticks) (old : RcState)
    → FitSticks s
    → (input_payload s ≡ build_payload (controller s))
      × (parse_payload (some (input_payload s)) (length (input_payload s)) (some old)
          ≡ (pos 0, some (sticks_only s)))
unfolding ◌-ℤ◌
parse_payload-input_payload s old fits = (
  input_payload-controller s,
  ap (λ p. parse_payload (some p) (length p) (some old)) (input_payload-controller s)
      ∙ seventeen
      ∙ parse_payload-build_payload (controller s) old axes
      ∙ (unfold shown clamp in refl),
)
  where
    seventeen :
        parse_payload
          (some (build_payload (controller s)))
          (length (build_payload (controller s)))
          (some old)
        ≡ parse_payload (some (build_payload (controller s))) 17 (some old)
    seventeen = unfold build_payload put_u16_le in refl

    axes : FitsAxes (controller s)
    axes = record {
      left_h = fits.left_h;
      left_v = fits.left_v;
      right_h = fits.right_h;
      right_v = fits.right_v;
      wheel_left = (omega arith, omega arith);
      wheel_right = (omega arith, omega arith);
    }
