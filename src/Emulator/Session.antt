-- ===== src/Emulator/Session.antt =====
-- emulator/rc_emulator.c: the loop of `main`, from the input to the controller state that is drawn.
-- The terminal and the file are not modelled: a session keeps the bytes that `fwrite` is given for the
-- recording and the states that `draw_ui` is given. The input of a round is a list of events, up to
-- the key that ends the loop.
pub mod Step
pub mod Replay
use rc_monitor.Base.{
  ℕ, ◌+◌, ◌%◌, ◌^◌, bit_and, List, [], ◌∷◌, ◌++◌, Option, none, some, take, ltb, if◌then◌else◌,
  false,
}
use rc_monitor.Base.Int.{ℤ, pos, negsuc}
use rc_monitor.State.{RcState, sport, duml_cmd_set_rc, duml_cmd_rc_push}
use rc_monitor.Parser.{Parser, fresh, feed}
use rc_monitor.Packet.{
  Header, build_packet, duml_dev_rc, duml_dev_app, duml_pack_request, duml_ack_no_ack,
}
use rc_monitor.Emulator.{EmuState, build_payload}
use rc_monitor.Emulator.Input.{Curses, Mouse, centred, handle_key, decay_sticks}
use rc_monitor.Emulator.Input.Pointer.{handle_mouse}

-- What `getch` and `getmouse` yield: a key, or a mouse event that was read.
pub data Event : Type 0 where
  key : ℕ → Event
  mouse : Mouse → Event

-- The locals of `main` and the globals: `emu`, `parser`, `g_parsed` and `g_seq`, with what was
-- recorded and drawn.
pub record Session : Type 0 where
  pub emu : EmuState
  pub parser : Parser
  pub parsed : RcState
  pub seq : ℕ
  pub recorded : List ℕ
  pub drawn : List RcState

-- One event.
unfoldable pub handle : Curses → EmuState → Event → EmuState
handle k e (key ch) = handle_key k e ch
handle k e (mouse m) = handle_mouse k e m

unfoldable pub handle_all : Curses → EmuState → List Event → EmuState
handle_all k e [] = e
handle_all k e (i ∷ is) = handle_all k (handle k e i) is

-- The arguments of the call of `rcm_build_packet`.
unfoldable pub push_header : ℕ → Header
push_header seq = record {
  sender_type = duml_dev_rc;
  sender_index = 0;
  receiver_type = duml_dev_app;
  receiver_index = 0;
  seq_num = bit_and seq 0xffff;
  pack_type = duml_pack_request;
  ack_type = duml_ack_no_ack;
  encrypt_type = 0;
  cmd_set = duml_cmd_set_rc;
  cmd_id = duml_cmd_rc_push;
}

-- `emulator_cb`, for each call in order: the last state stays in `g_parsed`.
unfoldable pub called : RcState → List RcState → RcState
called s [] = s
called s (c ∷ cs) = called c cs

-- `if (flen > 0) { rcm_feed(...); fwrite(...); }`, with the frame as far as it was written.
unfoldable pub fed : Session → List ℕ → Option (ℕ × List RcState × Option Parser) → Option Session
fed s frame (some (n, calls, some p)) =
    some (record s { parser = p; parsed = called s.parsed calls; recorded = s.recorded ++ frame })
fed s frame (some (n, calls, none)) = none
fed s frame none = none

unfoldable pub send : Session → ℤ × Option (List ℕ) → Option Session
unfolding fed
send s (pos flen, some frame) =
    if ltb 0 flen
    then fed s (take flen frame) (feed (some s.parser) (some (take flen frame)))
    else some s
send s (pos flen, none) = some s
send s (negsuc n, frame) = some s

-- `g_seq++`, `draw_ui` and `decay_sticks`.
unfoldable pub finish : Session → Session
finish s = record s {
  seq = (s.seq + 1) % 2 ^ 32;
  drawn = s.drawn ++ (s.parsed ∷ []);
  emu = decay_sticks s.emu;
}

-- One round of the loop. `stack` is what the local array `frame` holds before it is written.
unfoldable pub round : Curses → List ℕ → List Event → Session → Option Session
round k stack events s =
    let s = record s { emu = handle_all k s.emu events } in
    elim (send s
      (build_packet (some stack) 64 (push_header s.seq) (some (build_payload s.emu)) 17)) [
        | none ↦ none
        | some t ↦ some (finish t)
      ]

-- The rounds of a session, each with the array and the events that it meets.
unfoldable pub rounds : Curses → List (List ℕ × List Event) → Session → Option Session
rounds k [] s = some s
rounds k (i ∷ is) s = elim (round k i.0 i.1 s) [ none ↦ none | some t ↦ rounds k is t ]

-- `g_parsed` before the first call of the callback.
abbrev pub zeroed : RcState
zeroed = record {
  pause = false;
  gohome = false;
  shutter = false;
  record_button = false;
  custom1 = false;
  custom2 = false;
  custom3 = false;
  five_d = record { up = false; down = false; left = false; right = false; center = false };
  flight_mode = sport;
  stick_right = record { horizontal = pos 0; vertical = pos 0 };
  stick_left = record { horizontal = pos 0; vertical = pos 0 };
  left_wheel = pos 0;
  right_wheel = pos 0;
  right_wheel_delta = pos 0;
}

-- The state in front of the loop.
unfoldable pub start : Session
start = record {
  emu = centred;
  parser = fresh;
  parsed = zeroed;
  seq = 0;
  recorded = [];
  drawn = [];
}
