-- ===== src/Emulator/Tests.antt =====
-- The encoder on a controller in use.
use rc_monitor.Base.{◌≡◌, ℕ, List, ◌∷◌, length, refl, replicate, arith, true, false, some, []}
use rc_monitor.Base.Int.{pos, negsuc, quot, ◌+ℤ◌, ◌*ℤ◌, ◌-ℤ◌}
use rc_monitor.State.{sport}
use rc_monitor.Payload.{decode_payload, parse_payload}
use rc_monitor.Emulator.{EmuState, clamp, drag_none, build_payload}
use rc_monitor.Parser.{Parser, fresh, feed}
use rc_monitor.Emulator.Input.{switch, Curses, Mouse, centred, handle_key, decay_sticks}
use rc_monitor.Emulator.Input.Pointer.{press, move_left, mouse_h, handle_mouse}
use rc_monitor.Emulator.Axes.{InRange, centred-InRange}
use rc_monitor.Emulator.Range.{input-InRange}
use rc_monitor.Emulator.Session.{Event, key, mouse, Session, rounds, start}
use rc_monitor.Emulator.Session.Replay.{wanted, rounds_replay}
use rc_monitor.Emulator.RoundTrip.{shown, FitsAxes, parse_payload-build_payload}

abbrev in_use : EmuState
in_use = record {
  stick_left_h = negsuc 659;
  stick_left_v = pos 66;
  stick_right_h = pos 660;
  stick_right_v = negsuc 65;
  left_wheel = pos 33;
  right_wheel = pos 0;
  right_wheel_delta = negsuc 4;
  pause = true;
  gohome = false;
  shutter = true;
  record_button = false;
  custom1 = true;
  custom2 = false;
  custom3 = false;
  five_d_up = true;
  five_d_down = false;
  five_d_left = false;
  five_d_right = false;
  five_d_center = false;
  flight_mode = sport;
  drag = drag_none;
}

in_use-FitsAxes : FitsAxes in_use
unfolding ◌-ℤ◌
in_use-FitsAxes = record {
  left_h = omega arith;
  left_v = omega arith;
  right_h = omega arith;
  right_v = omega arith;
  wheel_left = omega arith;
  wheel_right = omega arith;
}

parse_payload-build_payload_example :
    parse_payload (some (build_payload in_use)) 17 (some (decode_payload []))
    ≡ (pos 0, some (shown in_use))
parse_payload-build_payload_example =
    parse_payload-build_payload in_use (decode_payload []) in_use-FitsAxes

-- The codes of one version of the curses library.
abbrev codes : Curses
codes = record {
  key_up = 259;
  key_down = 258;
  key_left = 260;
  key_right = 261;
  key_mouse = 409;
  button1_pressed = 2;
  button1_released = 1;
  button4_pressed = 65536;
  button5_pressed = some 2097152;
  report_mouse_position = 268435456;
}

-- A press of the mouse button in the left box.
abbrev in_box : Mouse
in_box = record { x = pos 3; y = pos 4; bstate = 2 }

-- The key `w` moves the left stick by a step, and the press moves it into the corner.
key_w : (handle_key codes centred 119).stick_left_v ≡ pos 66
unfolding handle_key switch clamp ◌+ℤ◌
key_w = refl

press_left : (handle_mouse codes centred in_box).stick_left_h ≡ negsuc 659
unfolding handle_mouse press move_left mouse_h clamp quot ◌+ℤ◌ ◌-ℤ◌ ◌*ℤ◌
press_left = refl

input-InRange_example :
    InRange (handle_key codes centred 119)
    × InRange (handle_mouse codes centred in_box)
    × InRange (decay_sticks centred)
input-InRange_example = input-InRange codes centred 119 in_box centred-InRange

abbrev two_rounds : List (List ℕ × List Event)
two_rounds = (replicate 64 0, key 119 ∷ mouse in_box ∷ []) ∷ (replicate 64 1, key 46 ∷ []) ∷ []

rounds_replay_example :
    (t : Session) × (q : Parser) × (rounds codes two_rounds start ≡ some t)
    × (t.drawn ≡ wanted codes centred two_rounds)
    × InRange t.emu
    × (feed (some fresh) (some t.recorded) ≡ some (length t.drawn, t.drawn, some q))
rounds_replay_example = rounds_replay codes two_rounds (refl, (refl, tt))
