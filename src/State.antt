-- ===== src/State.antt =====
-- include/rc_monitor.h: the controller state that a push packet carries, and the constants of the
-- DUML protocol.
use rc_monitor.Base.{ℕ, Bool}
use rc_monitor.Base.Int.{ℤ}

-- `DUML_SOF`, `DUML_CMD_SET_RC`, `DUML_CMD_RC_PUSH`, `DUML_VERSION`.
abbrev pub duml_sof : ℕ
duml_sof = 0x55

abbrev pub duml_cmd_set_rc : ℕ
duml_cmd_set_rc = 0x06

abbrev pub duml_cmd_rc_push : ℕ
duml_cmd_rc_push = 0x05

abbrev pub duml_version : ℕ
duml_version = 1

abbrev pub duml_header_len : ℕ
duml_header_len = 11

abbrev pub duml_footer_len : ℕ
duml_footer_len = 2

abbrev pub duml_min_frame_len : ℕ
duml_min_frame_len = 13

abbrev pub duml_max_frame_len : ℕ
duml_max_frame_len = 1400

abbrev pub rc_push_payload_len : ℕ
rc_push_payload_len = 17

-- `rc_flight_mode_t`
pub data FlightMode : Type 0 where
  sport normal tripod unknown : FlightMode

-- The value of the C enumerator.
abbrev pub flight_mode_code : FlightMode → ℕ
flight_mode_code sport = 0
flight_mode_code normal = 1
flight_mode_code tripod = 2
flight_mode_code unknown = 3

-- `rc_five_d_t`
pub record FiveD : Type 0 where
  pub up : Bool
  pub down : Bool
  pub left : Bool
  pub right : Bool
  pub center : Bool

-- `rc_stick_t`
pub record Stick : Type 0 where
  pub horizontal : ℤ
  pub vertical : ℤ

-- `rc_state_t`
pub record RcState : Type 0 where
  pub pause : Bool
  pub gohome : Bool
  pub shutter : Bool
  pub record_button : Bool
  pub custom1 : Bool
  pub custom2 : Bool
  pub custom3 : Bool
  pub five_d : FiveD
  pub flight_mode : FlightMode
  pub stick_right : Stick
  pub stick_left : Stick
  pub left_wheel : ℤ
  pub right_wheel : ℤ
  pub right_wheel_delta : ℤ
