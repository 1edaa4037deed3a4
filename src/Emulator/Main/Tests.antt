-- ===== src/Emulator/Main/Tests.antt =====
-- A session of one round and a 'q' in the next, recorded.
use rc_monitor.Base.{ℕ, ◌≡◌, refl, List, [], ◌∷◌, replicate, none, some, true}
use rc_monitor.Base.Int.{pos}
use rc_monitor.Emulator.Input.{Curses}
use rc_monitor.Emulator.Main.{Input, output, Run, main}
use rc_monitor.Emulator.Main.Exit.{Outcome, main_lem}

abbrev version : Curses
version = record {
  key_up = 259;
  key_down = 258;
  key_left = 260;
  key_right = 261;
  key_mouse = 409;
  button1_pressed = 2;
  button1_released = 1;
  button4_pressed = 65536;
  button5_pressed = none;
  report_mouse_position = 268435456;
}

abbrev click : Input
click = record { ch = 409; mev = some (record { x = pos 5; y = pos 7; bstate = 2 }) }

abbrev forward : Input
forward = record { ch = b'w'; mev = none }

abbrev stop_key : Input
stop_key = record { ch = b'q'; mev = none }

abbrev session : List (List ℕ × List Input)
session = (replicate 64 0, click ∷ []) ∷ (replicate 64 0, forward ∷ stop_key ∷ []) ∷ []

main_lem_example :
    (r : Run) × (main version (output ∷ []) true true session ≡ some r)
    × Outcome version (output ∷ []) true true session r
main_lem_example = main_lem version (output ∷ []) true true session (refl, (refl, tt))
