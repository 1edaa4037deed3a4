-- ===== src/Emulator/Draw.antt =====
-- emulator/rc_emulator.c: what the emulator draws, as the calls of the curses library in order. What
-- the library makes of a format is its own matter, so a text keeps its format and its arguments.
pub mod Screen
pub mod Bounds
mod Tests
use Prim.Native.String.{String}
use rc_monitor.Base.{ℕ, zero, suc, List, [], ◌∷◌, ◌++◌, Bool, true, false, if◌then◌else◌, ◌==◌}
use rc_monitor.Base.Int.{ℤ, pos, ◌+ℤ◌, ◌-ℤ◌, ◌*ℤ◌, quot}
use rc_monitor.State.{RcState, flight_mode_code}
use rc_monitor.Emulator.{EmuState, clamp}
use rc_monitor.Emulator.Input.Pointer.{left_box, right_box}

-- `A_BOLD`, `A_REVERSE`, `A_DIM`
pub data Attr : Type 0 where
  bold reverse dim : Attr

-- An argument behind a format.
pub data Arg : Type 0 where
  int : ℤ → Arg
  text : String → Arg

-- A call of `erase`, `refresh`, `attron`, `attroff`, `mvaddch` or `mvprintw`: row and column first.
pub data Draw : Type 0 where
  erase refresh : Draw
  attron attroff : Attr → Draw
  mvaddch : ℤ → ℤ → ℕ → Draw
  mvprintw : ℤ → ℤ → String → List Arg → Draw

-- `for (; n > 0; i++) mvaddch(row, col + i, ch)`
unfoldable pub run : ℕ → ℕ → ℤ → ℤ → ℕ → List Draw
run zero i row col ch = []
run (suc n) i row col ch = mvaddch row (col +ℤ pos i) ch ∷ run n (suc i) row col ch

-- The upper or the lower border.
unfoldable pub border : ℤ → ℤ → List Draw
unfolding run
border row col =
    mvaddch row col b'+' ∷ (run 11 1 row col b'-' ++ (mvaddch row (col +ℤ pos 12) b'+' ∷ []))

-- The inner rows from `r` on.
unfoldable pub inner_rows : ℕ → ℕ → ℤ → ℤ → List Draw
unfolding run
inner_rows zero r row col = []
inner_rows (suc n) r row col =
    mvaddch (row +ℤ pos r) col b'|'
    ∷ (run 11 1 (row +ℤ pos r) col b' '
        ++ (mvaddch (row +ℤ pos r) (col +ℤ pos 12) b'|' ∷ inner_rows n (suc r) row col))

-- `draw_stick` up to the crosshair.
unfoldable pub stick_box : ℤ → ℤ → String → List Draw
unfolding border inner_rows
stick_box row col label =
    mvprintw (row -ℤ pos 1) col "%s" (text label ∷ [])
    ∷ (border row col
        ++ (inner_rows 5 1 row col
            ++ (border (row +ℤ pos 6) col ++ (mvaddch (row +ℤ pos 3) (col +ℤ pos 6) b'+' ∷ []))))

-- `cx` and `cy`
unfoldable pub marker_x : ℤ → ℤ
marker_x h = clamp (pos 5 +ℤ quot (h *ℤ pos 5) 660) (pos 0) (pos 10)

unfoldable pub marker_y : ℤ → ℤ
marker_y v = clamp (pos 2 -ℤ quot (v *ℤ pos 2) 660) (pos 0) (pos 4)

unfoldable pub marker : ℤ → ℤ → List Draw
marker row col = attron bold ∷ mvaddch row col b'X' ∷ attroff bold ∷ []

-- `draw_stick`
unfoldable pub draw_stick : ℤ → ℤ → ℤ → ℤ → String → List Draw
draw_stick row col h v label =
    stick_box row col label ++ marker (row +ℤ pos 1 +ℤ marker_y v) (col +ℤ pos 1 +ℤ marker_x h)

-- `draw_btn`
unfoldable pub draw_btn : ℤ → ℤ → String → Bool → List Draw
draw_btn row col lbl true =
    attron reverse ∷ mvprintw row col "%s" (text lbl ∷ []) ∷ attroff reverse ∷ []
draw_btn row col lbl false = mvprintw row col "%s" (text lbl ∷ []) ∷ []

-- The labels in the rows of the buttons, of the joystick and of the flight modes.
pub data Label : Type 0 where
  pause home shut rec c1 c2 c3 : Label
  up down left right center : Label
  sport_mode normal_mode tripod_mode : Label

-- The arguments of `draw_btn` for each: row, column, text, and whether it is active.
unfoldable pub row_of : Label → ℕ
row_of pause = 12
row_of home = 12
row_of shut = 12
row_of rec = 12
row_of c1 = 12
row_of c2 = 12
row_of c3 = 12
row_of up = 13
row_of down = 13
row_of left = 13
row_of right = 13
row_of center = 13
row_of sport_mode = 14
row_of normal_mode = 14
row_of tripod_mode = 14

unfoldable pub col_of : Label → ℕ
col_of pause = 12
col_of home = 20
col_of shut = 27
col_of rec = 34
col_of c1 = 40
col_of c2 = 45
col_of c3 = 50
col_of up = 12
col_of down = 16
col_of left = 20
col_of right = 24
col_of center = 28
col_of sport_mode = 12
col_of normal_mode = 20
col_of tripod_mode = 29

unfoldable pub text_of : Label → String
text_of pause = "[PAUSE]"
text_of home = "[HOME]"
text_of shut = "[SHUT]"
text_of rec = "[REC]"
text_of c1 = "[C1]"
text_of c2 = "[C2]"
text_of c3 = "[C3]"
text_of up = "[U]"
text_of down = "[D]"
text_of left = "[L]"
text_of right = "[R]"
text_of center = "[CTR]"
text_of sport_mode = "Sport"
text_of normal_mode = "Normal"
text_of tripod_mode = "Tripod"

unfoldable pub active : RcState → Label → Bool
active p pause = p.pause
active p home = p.gohome
active p shut = p.shutter
active p rec = p.record_button
active p c1 = p.custom1
active p c2 = p.custom2
active p c3 = p.custom3
active p up = p.five_d.up
active p down = p.five_d.down
active p left = p.five_d.left
active p right = p.five_d.right
active p center = p.five_d.center
active p sport_mode = flight_mode_code p.flight_mode == 0
active p normal_mode = flight_mode_code p.flight_mode == 1
active p tripod_mode = flight_mode_code p.flight_mode == 2

unfoldable pub draw_labels : RcState → List Label → List Draw
draw_labels p [] = []
draw_labels p (l ∷ ls) =
    draw_btn (pos (row_of l)) (pos (col_of l)) (text_of l) (active p l) ++ draw_labels p ls

-- The title bar. `recording` is whether a file is open.
unfoldable pub draw_title : ℕ → Bool → List Draw
draw_title seq recording =
    attron bold
    ∷ mvprintw (pos 0) (pos 1) "DJI RC Emulator" []
    ∷ attroff bold
    ∷ mvprintw (pos 0) (pos 45) "20 Hz | Seq: %u" (int (pos seq) ∷ [])
    ∷ (if recording then mvprintw (pos 0) (pos 65) "[REC]" [] ∷ [] else [])

-- The values of the sticks as they were parsed.
unfoldable pub draw_values : RcState → List Draw
draw_values p =
    mvprintw (pos 10) left_box " H: %+4d  V: %+4d"
      (int p.stick_left.horizontal ∷ int p.stick_left.vertical ∷ [])
    ∷ mvprintw (pos 10) right_box " H: %+4d  V: %+4d"
        (int p.stick_right.horizontal ∷ int p.stick_right.vertical ∷ [])
    ∷ []

unfoldable pub draw_buttons : RcState → List Draw
draw_buttons p =
    mvprintw (pos 12) (pos 2) "BUTTONS:" []
    ∷ draw_labels p (pause ∷ home ∷ shut ∷ rec ∷ c1 ∷ c2 ∷ c3 ∷ [])

unfoldable pub draw_five_d : RcState → List Draw
draw_five_d p =
    mvprintw (pos 13) (pos 2) "5D:" [] ∷ draw_labels p (up ∷ down ∷ left ∷ right ∷ center ∷ [])

unfoldable pub draw_modes : RcState → List Draw
draw_modes p =
    mvprintw (pos 14) (pos 2) "MODE:" []
    ∷ draw_labels p (sport_mode ∷ normal_mode ∷ tripod_mode ∷ [])

unfoldable pub draw_wheels : RcState → List Draw
draw_wheels p =
    mvprintw (pos 16) (pos 2) "WHEELS:   Left: %+4d   Right: %+4d   Delta: %+2d"
      (int p.left_wheel ∷ int p.right_wheel ∷ int p.right_wheel_delta ∷ [])
    ∷ []

unfoldable pub draw_help : List Draw
draw_help =
    attron dim
    ∷ mvprintw (pos 18) (pos 2) "WASD=L.Stick  Arrows=R.Stick  p=Pause h=Home z=Shut x=Rec" []
    ∷ mvprintw (pos 19) (pos 2) "1/2/3=Custom  ijklo=5D  [/]/\\=Mode  -/==L.Whl  9/0=R.Whl" []
    ∷ mvprintw (pos 20) (pos 2) ",/.=R.Whl.Delta  r=Reset  q=Quit  Mouse: drag sticks, click btns"
        []
    ∷ attroff dim
    ∷ []

-- `draw_ui`
unfoldable pub draw_ui : ℕ → Bool → EmuState → RcState → List Draw
draw_ui seq recording e p =
    erase
    ∷ (draw_title seq recording
        ++ (draw_stick (pos 3) left_box e.stick_left_h e.stick_left_v "LEFT STICK (WASD)"
            ++ (draw_stick (pos 3) right_box e.stick_right_h e.stick_right_v "RIGHT STICK (Arrows)"
                ++ (draw_values p
                    ++ (draw_buttons p
                        ++ (draw_five_d p
                            ++ (draw_modes p
                                ++ (draw_wheels p ++ (draw_help ++ (refresh ∷ []))))))))))
