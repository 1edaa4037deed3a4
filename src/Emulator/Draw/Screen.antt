-- ===== src/Emulator/Draw/Screen.antt =====
-- What is seen on the screen: the markers of the sticks, the labels, and that all of it fits.
use Prim.Native.String.{String}
use rc_monitor.Base.{
  ℕ, ◌+◌, ◌<◌, ◌≤◌, ◌≡◌, refl, ap, ap₂, ◌∙◌, [], ◌∷◌, ◌++◌, length, true, arith, Bool-cases, inl,
  inr, min, ◌⊎◌, ◌||◌,
}
use rc_monitor.Base.Int.{ℤ, pos, negsuc, ◌+ℤ◌, ◌-ℤ◌, ◌*ℤ◌, quot}
use rc_monitor.Base.Word.{codes}
use rc_monitor.Emulator.{EmuState, clamp}
use rc_monitor.Emulator.Input.{Curses, Mouse}
use rc_monitor.Emulator.Input.Pointer.{
  has, press, handle_mouse, move_left, move_right, mouse_h, mouse_v, left_box, right_box,
  click_labels, click_button, click_five_d, click_mode, within,
}
use rc_monitor.Emulator.RoundTrip.{shown}
use rc_monitor.Emulator.Draw.{
  mvprintw, attron, attroff, Label, pause, home, shut, rec, c1, c2, c3, up, down, left, right,
  center, sport_mode, normal_mode, tripod_mode, row_of, col_of, text_of, active, marker_x, marker_y,
  marker, stick_box, draw_stick, draw_btn, reverse, text,
}

-- A column or a row within a box.
column : (n : ℕ) → n ≤ 10 → marker_x (quot ((pos n -ℤ pos 5) *ℤ pos 660) 5) ≡ pos n
unfolding marker_x clamp quot ◌+ℤ◌ ◌-ℤ◌ ◌*ℤ◌
column n h = ground arith

line : (n : ℕ) → n ≤ 4 → marker_y (quot ((pos 2 -ℤ pos n) *ℤ pos 660) 2) ≡ pos n
unfolding marker_y clamp quot ◌+ℤ◌ ◌-ℤ◌ ◌*ℤ◌
line n h = ground arith

-- A value between two bounds is its own clamp.
pub clamped : (v : ℤ) (hi : ℕ) → (n : ℕ) × (clamp v (pos 0) (pos hi) ≡ pos n) × (n ≤ hi)
unfolding clamp
clamped (pos n) hi = (min n hi, ground arith, omega arith)
clamped (negsuc n) hi = (0, ground arith, omega arith)

-- The marker stands in the column and in the row of the mouse, brought into the box.
marker_x-mouse_h :
    (x box_col : ℤ)
    → marker_x (mouse_h x box_col) ≡ clamp (x -ℤ (box_col +ℤ pos 1)) (pos 0) (pos 10)
unfolding mouse_h
marker_x-mouse_h x box_col =
    let (n, e, le) = clamped (x -ℤ (box_col +ℤ pos 1)) 10 in rw e (column n le)

marker_y-mouse_v : (y : ℤ) → marker_y (mouse_v y) ≡ clamp (y -ℤ pos 4) (pos 0) (pos 4)
unfolding mouse_v
marker_y-mouse_v y = let (n, e, le) = clamped (y -ℤ pos 4) 4 in rw e (line n le)

-- A mouse position in a box of the screen is a cell of it.
cell_x :
    (x : ℤ) (c : ℕ)
    → within x (c + 1) (c + 11) ≡ true
    → pos c +ℤ pos 1 +ℤ clamp (x -ℤ (pos c +ℤ pos 1)) (pos 0) (pos 10) ≡ x
unfolding clamp ◌+ℤ◌ ◌-ℤ◌
cell_x (pos n) c h = ground arith
cell_x (negsuc n) c h = ground arith

cell_y : (y : ℤ) → within y 4 8 ≡ true → pos 3 +ℤ pos 1 +ℤ clamp (y -ℤ pos 4) (pos 0) (pos 4) ≡ y
unfolding clamp ◌+ℤ◌ ◌-ℤ◌
cell_y (pos n) h = ground arith
cell_y (negsuc n) h = ground arith

stick_at :
    (x y : ℤ) (c : ℕ) (label : String)
    → within y 4 8 ≡ true
    → within x (c + 1) (c + 11) ≡ true
    → draw_stick (pos 3) (pos c) (mouse_h x (pos c)) (mouse_v y) label
      ≡ stick_box (pos 3) (pos c) label ++ marker y x
unfolding draw_stick
stick_at x y c label hy hx =
    ap₂ (λ row col. stick_box (pos 3) (pos c) label ++ marker row col)
      (ap (λ t. pos 3 +ℤ pos 1 +ℤ t) (marker_y-mouse_v y) ∙ cell_y y hy)
      (ap (λ t. pos c +ℤ pos 1 +ℤ t) (marker_x-mouse_h x (pos c)) ∙ cell_x x c hx)

-- Where the left button of the mouse is pressed in a cell of the left or of the right stick's box, the
-- stick that is drawn next has its marker in that cell, behind the box as it always is.
pub draw_stick-handle_mouse :
    (k : Curses) (e : EmuState) (m : Mouse) (label : String)
    → has m k.button1_pressed ≡ true
    → within m.y 4 8 ≡ true
    → within m.x 3 13 || within m.x 30 40 ≡ true
    → ((within m.x 3 13 ≡ true)
        × (draw_stick
              (pos 3)
              left_box
              (handle_mouse k e m).stick_left_h
              (handle_mouse k e m).stick_left_v
              label
            ≡ stick_box (pos 3) left_box label ++ marker m.y m.x))
      ⊎ ((within m.x 30 40 ≡ true)
          × (draw_stick
                (pos 3)
                right_box
                (handle_mouse k e m).stick_right_h
                (handle_mouse k e m).stick_right_v
                label
              ≡ stick_box (pos 3) right_box label ++ marker m.y m.x))
unfolding handle_mouse press move_left move_right
draw_stick-handle_mouse k e m label pressed hy hx = elim (Bool-cases (within m.x 3 13)) [
  | inl left_hit ↦ inl (left_hit, rw (pressed, hy, left_hit) (stick_at m.x m.y 2 label hy left_hit))
  | inr no_left ↦ elim (Bool-cases (within m.x 30 40)) [
    | inl right_hit ↦
        inr
          (right_hit, rw (pressed, hy, no_left, right_hit) (stick_at m.x m.y 29 label hy right_hit))
    | inr no_right ↦ absurd (ground (arith, hx, no_left, no_right))
  ]
]

-- The columns of a label's text.
abbrev pub OnLabel : Label → Mouse → Type 0
OnLabel l m =
    (m.y ≡ pos (row_of l)) × (n : ℕ) × (n < length (codes (text_of l))) × (m.x ≡ pos (col_of l + n))

press_label :
    (l : Label) (e : EmuState) (n b : ℕ)
    → n < length (codes (text_of l))
    → active (shown (press e (record { x = pos (col_of l + n); y = pos (row_of l); bstate = b }))) l
      ≡ true
unfolding active row_of col_of text_of press click_labels click_button click_five_d click_mode shown
press_label pause e n b h = ground arith
press_label home e n b h = ground arith
press_label shut e n b h = ground arith
press_label rec e n b h = ground arith
press_label c1 e n b h = ground arith
press_label c2 e n b h = ground arith
press_label c3 e n b h = ground arith
press_label up e n b h = ground arith
press_label down e n b h = ground arith
press_label left e n b h = ground arith
press_label right e n b h = ground arith
press_label center e n b h = ground arith
press_label sport_mode e n b h = ground arith
press_label normal_mode e n b h = ground arith
press_label tripod_mode e n b h = ground arith

-- Where the left button of the mouse is pressed on any character of a label, the label is active in the
-- state that the emulator then has, which the payload carries, and is drawn in reverse.
pub draw_btn-handle_mouse :
    (k : Curses) (e : EmuState) (m : Mouse) (l : Label)
    → has m k.button1_pressed ≡ true
    → OnLabel l m
    → draw_btn (pos (row_of l)) (pos (col_of l)) (text_of l) (active (shown (handle_mouse k e m)) l)
      ≡ attron reverse
        ∷ mvprintw (pos (row_of l)) (pos (col_of l)) "%s" (text (text_of l) ∷ [])
        ∷ attroff reverse
        ∷ []
unfolding handle_mouse draw_btn
draw_btn-handle_mouse k e m l pressed (y, n, lt, x) =
    rw (pressed, y, x, press_label l e n m.bstate lt) refl
