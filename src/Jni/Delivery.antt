-- ===== src/Jni/Delivery.antt =====
-- What the Java side makes of the arguments: the types fit, and no field is lost or exchanged.
use rc_monitor.Base.{map, some, ◌≡◌, refl}
use rc_monitor.Base.Int.{pos}
use rc_monitor.Base.Word.{codes}
use rc_monitor.State.{RcState, FlightMode, sport, normal, tripod, unknown, flight_mode_code}
use rc_monitor.Payload.{flight_mode_str}
use rc_monitor.Jni.Args.{
  java_args, type_of, descriptor, read_descriptor, JavaState, on_rc_state, flight_mode_string,
}

-- The state of the C code as the Java class holds it.
unfoldable pub java_state : RcState → JavaState
java_state s = record {
  pause = s.pause;
  gohome = s.gohome;
  shutter = s.shutter;
  record_button = s.record_button;
  custom1 = s.custom1;
  custom2 = s.custom2;
  custom3 = s.custom3;
  five_d_up = s.five_d.up;
  five_d_down = s.five_d.down;
  five_d_left = s.five_d.left;
  five_d_right = s.five_d.right;
  five_d_center = s.five_d.center;
  flight_mode = pos (flight_mode_code s.flight_mode);
  stick_right_h = s.stick_right.horizontal;
  stick_right_v = s.stick_right.vertical;
  stick_left_h = s.stick_left.horizontal;
  stick_left_v = s.stick_left.vertical;
  left_wheel = s.left_wheel;
  right_wheel = s.right_wheel;
  right_wheel_delta = s.right_wheel_delta;
}

mode_names : (m : FlightMode) → flight_mode_string (pos (flight_mode_code m)) ≡ flight_mode_str m
unfolding flight_mode_string flight_mode_str
mode_names sport = refl
mode_names normal = refl
mode_names tripod = refl
mode_names unknown = refl

-- The arguments of `CallVoidMethod` are, in number, order and type, those of the descriptor that
-- `nativeInit` looks the method up by; the Java listener takes every field of the state from them into
-- the field of the same meaning; and its name of the flight mode is that of `rcm_flight_mode_str`.
pub on_rc_state-java_args :
    (s : RcState)
    → (read_descriptor (codes descriptor) ≡ some (map type_of (java_args s)))
      × (on_rc_state (java_args s) ≡ some (java_state s))
      × (flight_mode_string (java_state s).flight_mode ≡ flight_mode_str s.flight_mode)
unfolding java_args type_of read_descriptor on_rc_state java_state
on_rc_state-java_args s = (refl, refl, mode_names s.flight_mode)
