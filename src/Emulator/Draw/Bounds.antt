-- ===== src/Emulator/Draw/Bounds.antt =====
-- All that `draw_ui` writes stands on a screen of 24 rows and 80 columns.
use Prim.Native.String.{String}
use rc_monitor.Base.{
  ℕ, ◌+◌, ◌≡◌, refl, List, [], ◌∷◌, ◌++◌, length, Bool, true, false, ◌&&◌, ◌≤◌, arith,
}
use rc_monitor.Base.Int.{ℤ, pos, ◌+ℤ◌, ◌-ℤ◌, leb_ℤ, ◌*ℤ◌, quot}
use rc_monitor.Base.Word.{codes}
use rc_monitor.State.{RcState}
use rc_monitor.Emulator.{EmuState}
use rc_monitor.Emulator.Input.Pointer.{left_box, right_box}
use rc_monitor.Emulator.Draw.Screen.{clamped}
use rc_monitor.Emulator.Draw.{
  Arg, int, text, pause, home, shut, rec, c1, c2, c3, up, down, left, right, center, sport_mode,
  normal_mode, tripod_mode, Draw, refresh, mvaddch, mvprintw, stick_box, marker_x, marker_y, marker,
  draw_stick, draw_btn, Label, row_of, col_of, text_of, active, draw_labels, draw_title,
  draw_values, draw_buttons, draw_five_d, draw_modes, draw_wheels, draw_help, draw_ui,
}

-- How many columns a text takes: its own, those of its one argument, or where numbers are
-- formatted, which is left open, at least one.
unfoldable pub width : String → List Arg → ℕ
width format [] = length (codes format)
width format (text t ∷ []) = length (codes t)
width format (int v ∷ args) = 1
width format (text t ∷ a ∷ args) = 1

unfoldable pub on_screen : ℤ → ℤ → ℕ → Bool
on_screen row col n =
    leb_ℤ (pos 0) row && leb_ℤ row (pos 23) && leb_ℤ (pos 0) col && leb_ℤ (col +ℤ pos n) (pos 80)

unfoldable pub in_screen : Draw → Bool
unfolding on_screen width
in_screen (mvaddch row col ch) = on_screen row col 1
in_screen (mvprintw row col format args) = on_screen row col (width format args)
in_screen _ = true

unfoldable pub all_in_screen : List Draw → Bool
all_in_screen [] = true
all_in_screen (d ∷ ds) = in_screen d && all_in_screen ds

and_step : (a b c : Bool) → a && b ≡ true → (b ≡ true → c ≡ true) → a && c ≡ true
and_step true b c h f = f h
and_step false b c h f = h

both :
    (xs ys : List Draw)
    → all_in_screen xs ≡ true
    → all_in_screen ys ≡ true
    → all_in_screen (xs ++ ys) ≡ true
unfolding all_in_screen
both [] ys h k = k
both (x ∷ xs) ys h k =
    and_step (in_screen x) (all_in_screen xs) (all_in_screen (xs ++ ys)) h (λ t. both xs ys t k)

left_box_fits : all_in_screen (stick_box (pos 3) left_box "LEFT STICK (WASD)") ≡ true
unfolding all_in_screen in_screen stick_box on_screen width ◌+ℤ◌ ◌-ℤ◌
left_box_fits = refl

right_box_fits : all_in_screen (stick_box (pos 3) right_box "RIGHT STICK (Arrows)") ≡ true
unfolding all_in_screen in_screen stick_box on_screen width ◌+ℤ◌ ◌-ℤ◌
right_box_fits = refl

marker_fits :
    (c : ℕ) (h v : ℤ)
    → c + 12 ≤ 80
    → all_in_screen (marker (pos 3 +ℤ pos 1 +ℤ marker_y v) (pos c +ℤ pos 1 +ℤ marker_x h)) ≡ true
unfolding all_in_screen in_screen marker on_screen ◌+ℤ◌ marker_x marker_y
marker_fits c h v le =
    let (x, at_x, lx) = clamped (pos 5 +ℤ quot (h *ℤ pos 5) 660) 10 in
    let (y, at_y, ly) = clamped (pos 2 -ℤ quot (v *ℤ pos 2) 660) 4 in rw (at_x, at_y) (ground arith)

label_place :
    (l : Label) → on_screen (pos (row_of l)) (pos (col_of l)) (length (codes (text_of l))) ≡ true
unfolding on_screen row_of col_of text_of ◌+ℤ◌
label_place pause = refl
label_place home = refl
label_place shut = refl
label_place rec = refl
label_place c1 = refl
label_place c2 = refl
label_place c3 = refl
label_place up = refl
label_place down = refl
label_place left = refl
label_place right = refl
label_place center = refl
label_place sport_mode = refl
label_place normal_mode = refl
label_place tripod_mode = refl

label_fits :
    (l : Label) (b : Bool)
    → all_in_screen (draw_btn (pos (row_of l)) (pos (col_of l)) (text_of l) b) ≡ true
unfolding all_in_screen in_screen draw_btn width
label_fits l true = rw (label_place l) refl
label_fits l false = rw (label_place l) refl

labels_fit : (p : RcState) (ls : List Label) → all_in_screen (draw_labels p ls) ≡ true
unfolding draw_labels all_in_screen
labels_fit p [] = refl
labels_fit p (l ∷ ls) = both _ (draw_labels p ls) (label_fits l (active p l)) (labels_fit p ls)

title_fits : (seq : ℕ) (recording : Bool) → all_in_screen (draw_title seq recording) ≡ true
unfolding all_in_screen in_screen draw_title on_screen width ◌+ℤ◌
title_fits seq true = refl
title_fits seq false = refl

-- Behind the sticks.
rest_fits :
    (p : RcState)
    → all_in_screen (
        draw_values p
        ++ (draw_buttons p
            ++ (draw_five_d p
                ++ (draw_modes p ++ (draw_wheels p ++ (draw_help ++ (refresh ∷ [])))))))
      ≡ true
unfolding all_in_screen in_screen draw_values draw_wheels draw_help draw_buttons draw_five_d
    draw_modes on_screen width ◌+ℤ◌
rest_fits p =
    both (draw_labels p _) _ (labels_fit p _)
      (both (draw_labels p _) _ (labels_fit p _) (both (draw_labels p _) _ (labels_fit p _) refl))

-- Whatever the deflection of the sticks and the parsed state, `draw_ui` calls curses only for places
-- on a screen of 24 rows and 80 columns, where every text without numbers fits whole and every text
-- with numbers begins.
pub draw_ui_fits :
    (seq : ℕ) (recording : Bool) (e : EmuState) (p : RcState)
    → all_in_screen (draw_ui seq recording e p) ≡ true
unfolding draw_ui draw_stick all_in_screen in_screen
draw_ui_fits seq recording e p =
    let l = marker_fits 2 e.stick_left_h e.stick_left_v (omega arith) in
    let r = marker_fits 29 e.stick_right_h e.stick_right_v (omega arith) in
    search (both, title_fits seq recording, left_box_fits, l, right_box_fits, r, rest_fits p)
