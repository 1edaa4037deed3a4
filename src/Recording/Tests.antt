-- ===== src/Recording/Tests.antt =====
-- A recording of one round of the emulator, and what verify_recording makes of it.
use rc_monitor.Base.{
  ℕ, arith, subst, IsBytes, All, length, ◌≡◌, refl, List, [], ◌∷◌, replicate, none, some, true,
  false, take, drop, append-nil, ◌<◌, ◌++◌,
}
use rc_monitor.State.{RcState, normal}
use rc_monitor.Recording.{Stdio, Action, total_line, destroyed, closed, verify_recording}
use rc_monitor.Recording.Exit.{Ends, Outcome, Yields, ended, more, lines, verify_recording_lem}
use rc_monitor.Parser.Chunks.{joined}
use rc_monitor.Recording.Emulated.{main-verify_recording}
use rc_monitor.Emulator.Session.Replay.{wanted}
use rc_monitor.Emulator.Main.Loop.{until_quit}
use rc_monitor.Emulator.{
  clamp, put_u16_le, buttons_byte, joystick_byte, mode_byte, delta_byte, build_payload,
}
use rc_monitor.Emulator.Input.{
  Curses, centred, switch, handle_key, decay_left, decay_right, decay_sticks,
}
use rc_monitor.Emulator.Session.{
  handle, handle_all, push_header, called, fed, send, finish, round, start,
}
use rc_monitor.Emulator.Main.{
  Input, output, exited, dispatch, read_input, after_input, loop, parse_options, file, leave,
  with_parser, with_options, main,
}
use rc_monitor.Packet.{
  write_u16_le, copy_to, clear, device_byte, cmd_type_byte, ver_len, write_header, write_packet,
  build_packet,
}
use rc_monitor.Parser.{
  fresh, create, slot, ring_peek, ring_copy, ring_consume, ring_push, parsed, blank, is_rc_push,
  standard_payload, payload_at, search_payload, deliver, read_body, header_len, accept_header,
  scan_header, round_of, try_decode, try_decode_frame, drain, feed_byte, feed_bytes, feed,
}
use rc_monitor.Payload.{
  read_u16_le, bit_at, flight_mode_of, axis_at, wheel_delta, decode_payload, parse_payload,
}
use rc_monitor.Crc.Table.{crc8_table, crc16_table}
use rc_monitor.Crc.{crc8_round, crc8_from, duml_crc8, crc16_round, crc16_from, duml_crc16}
use rc_monitor.Base.Int.{pos, ◌+ℤ◌, ◌-ℤ◌, ◌*ℤ◌, quot}

abbrev version : Curses
version = record {
  key_up = 259;
  key_down = 258;
  key_left = 260;
  key_right = 261;
  key_mouse = 409;
  button1_pressed = 2;
  button1_released = 1;
  button4_pressed = 65536;
  button5_pressed = none;
  report_mouse_position = 268435456;
}

abbrev forward : Input
forward = record { ch = b'w'; mev = none }

abbrev stop_key : Input
stop_key = record { ch = b'q'; mev = none }

abbrev session : List (List ℕ × List Input)
session = (replicate 64 0, forward ∷ []) ∷ (replicate 64 0, stop_key ∷ []) ∷ []

-- What it drew, and the packet that it recorded.
abbrev pushed : RcState
pushed = record {
  pause = false;
  gohome = false;
  shutter = false;
  record_button = false;
  custom1 = false;
  custom2 = false;
  custom3 = false;
  five_d = record { up = false; down = false; left = false; right = false; center = false };
  flight_mode = normal;
  stick_right = record { horizontal = pos 0; vertical = pos 0 };
  stick_left = record { horizontal = pos 0; vertical = pos 66 };
  left_wheel = pos 0;
  right_wheel = pos 0;
  right_wheel_delta = pos 0;
}

abbrev recorded : List ℕ
recorded =
    85 ∷ 30 ∷ 4 ∷ 138 ∷ 6 ∷ 2 ∷ 0 ∷ 0 ∷ 0 ∷ 6 ∷ 5 ∷ 0 ∷ 0 ∷ 1 ∷ 0 ∷ 0 ∷ 0 ∷ 4 ∷ 0 ∷ 4 ∷ 66 ∷ 4 ∷ 0
    ∷ 4 ∷ 0 ∷ 4 ∷ 0 ∷ 4 ∷ 25 ∷ 111 ∷ []

session_run :
    main version (output ∷ []) true true session ≡ some (exited 0 (some recorded) (pushed ∷ []))
unfolding clamp put_u16_le buttons_byte joystick_byte mode_byte delta_byte build_payload switch
    handle_key decay_left decay_right decay_sticks handle handle_all push_header called fed send
    finish round start dispatch read_input after_input loop parse_options file leave with_parser
    with_options main write_u16_le copy_to clear device_byte cmd_type_byte ver_len write_header
    write_packet build_packet fresh create slot ring_peek ring_copy ring_consume ring_push parsed
    blank is_rc_push standard_payload payload_at search_payload deliver read_body header_len
    accept_header scan_header round_of try_decode try_decode_frame drain feed_byte feed_bytes feed
    read_u16_le bit_at flight_mode_of axis_at wheel_delta decode_payload parse_payload crc8_round
    crc8_from duml_crc8 crc16_round crc16_from duml_crc16 ◌+ℤ◌ ◌-ℤ◌ ◌*ℤ◌ quot crc8_table crc16_table
session_run = refl

-- Files in memory: one file, and streams as the bytes that are left.
abbrev memory : List ℕ → Stdio (List ℕ)
memory bytes = record { fopen = λ path. some bytes; fread = λ f n. (take n f, drop n f) }

-- The file is read in one piece, which an empty read follows.
recorded-Yields : Yields (memory recorded) recorded (recorded ∷ [])
recorded-Yields = more _ _ refl (ended refl)

recorded-IsBytes : All IsBytes (recorded ∷ [])
recorded-IsBytes = omega arith

memory-Ends : Ends (memory recorded) 2
memory-Ends path f h =
    let same : recorded ≡ f = cc in
    subst
      (λ g. (cs : List (List ℕ)) × Yields (memory recorded) g cs × All IsBytes cs × (length cs < 2))
      same (recorded ∷ [], recorded-Yields, recorded-IsBytes, omega arith)

verify_recording_lem_example :
    (code : ℕ) × (actions : List Action) × (verify_recording
        (memory recorded)
        2
        true
        ("verify_recording" ∷ "rec.bin" ∷ [])
      ≡ some (code, actions))
    × Outcome (memory recorded) ("verify_recording" ∷ "rec.bin" ∷ []) true code actions
verify_recording_lem_example =
    verify_recording_lem (memory recorded) 2 true ("verify_recording" ∷ "rec.bin" ∷ []) memory-Ends

main-verify_recording_example :
    (pushed ∷ [] ≡ wanted version centred (until_quit version session))
    × (verify_recording (memory recorded) 2 true ("verify_recording" ∷ "rec.bin" ∷ [])
        ≡ some (0, lines 0 (pushed ∷ []) ++ (total_line 1 "rec.bin" ∷ destroyed ∷ closed ∷ [])))
unfolding joined
main-verify_recording_example =
    main-verify_recording version (output ∷ []) true true session recorded (pushed ∷ [])
      (memory recorded) 2 "verify_recording" "rec.bin" recorded (recorded ∷ []) (refl, (refl, tt))
      session_run refl recorded-Yields (append-nil recorded) recorded-IsBytes (omega arith)
