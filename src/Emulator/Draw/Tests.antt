-- ===== src/Emulator/Draw/Tests.antt =====
-- The screen after a click, and with sticks at their ends.
use rc_monitor.Base.{◌≡◌, refl, ◌⊎◌, [], ◌∷◌, ◌++◌, true, none, arith}
use rc_monitor.Base.Int.{pos}
use rc_monitor.Emulator.Input.{Curses, Mouse, centred}
use rc_monitor.Emulator.Input.Pointer.{handle_mouse, within, left_box, right_box}
use rc_monitor.Emulator.RoundTrip.{shown}
use rc_monitor.Emulator.Draw.{
  mvprintw, attron, attroff, reverse, text, c1, row_of, col_of, text_of, active, marker, stick_box,
  draw_stick, draw_btn, draw_ui,
}
use rc_monitor.Emulator.Draw.Screen.{draw_stick-handle_mouse, draw_btn-handle_mouse}
use rc_monitor.Emulator.Draw.Bounds.{all_in_screen, draw_ui_fits}

-- The codes of one version of the curses library.
abbrev version : Curses
version = record {
  key_up = 259;
  key_down = 258;
  key_left = 260;
  key_right = 261;
  key_mouse = 409;
  button1_pressed = 2;
  button1_released = 1;
  button4_pressed = 65536;
  button5_pressed = none;
  report_mouse_position = 268435456;
}

-- A click in the left box, and one on the label of the first custom button.
abbrev in_box : Mouse
in_box = record { x = pos 5; y = pos 7; bstate = 2 }

abbrev on_label : Mouse
on_label = record { x = pos 42; y = pos 12; bstate = 2 }

draw_stick-handle_mouse_example :
    ((within in_box.x 3 13 ≡ true)
      × (draw_stick
            (pos 3)
            left_box
            (handle_mouse version centred in_box).stick_left_h
            (handle_mouse version centred in_box).stick_left_v
            "LEFT STICK (WASD)"
          ≡ stick_box (pos 3) left_box "LEFT STICK (WASD)" ++ marker (pos 7) (pos 5)))
    ⊎ ((within in_box.x 30 40 ≡ true)
        × (draw_stick
              (pos 3)
              right_box
              (handle_mouse version centred in_box).stick_right_h
              (handle_mouse version centred in_box).stick_right_v
              "LEFT STICK (WASD)"
            ≡ stick_box (pos 3) right_box "LEFT STICK (WASD)" ++ marker (pos 7) (pos 5)))
draw_stick-handle_mouse_example =
    draw_stick-handle_mouse version centred in_box "LEFT STICK (WASD)" refl refl refl

draw_btn-handle_mouse_example :
    draw_btn (pos 12) (pos 40) "[C1]" (active (shown (handle_mouse version centred on_label)) c1)
    ≡ attron reverse ∷ mvprintw (pos 12) (pos 40) "%s" (text "[C1]" ∷ []) ∷ attroff reverse ∷ []
unfolding row_of col_of text_of
draw_btn-handle_mouse_example =
    draw_btn-handle_mouse version centred on_label c1 refl (refl, 2, (omega arith), refl)

draw_ui_fits_example : all_in_screen (draw_ui 3 true centred (shown centred)) ≡ true
draw_ui_fits_example = draw_ui_fits 3 true centred (shown centred)
