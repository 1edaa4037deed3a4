-- ===== src/Emulator/Range/Clicks.antt =====
-- `handle_mouse` keeps the axes in range.
use rc_monitor.Base.{
  ℕ, ◌≡◌, Bool, true, false, subst, sym, refl, ◌∙◌, Option, ◌&&◌, if◌then◌else◌, arith, none, some,
}
use rc_monitor.Base.Int.{ℤ, pos, negsuc, ◌+ℤ◌, ◌-ℤ◌, ◌*ℤ◌, ◌≤ℤ◌, eqb_ℤ, quot}
use rc_monitor.Emulator.{DragTarget, drag_none, drag_left_stick, drag_right_stick, EmuState, clamp}
use rc_monitor.Emulator.Input.{Curses, Mouse, clamp_axis, wheel_step}
use rc_monitor.Emulator.Input.Pointer.{
  mouse_h, mouse_v, move_left, move_right, click_button, click_five_d, click_mode, click_labels,
  press, scroll, drag_or_scroll, handle_mouse, left_box, right_box, has, within,
}
use rc_monitor.Emulator.Axes.{Axis, axes, Ranges, InRange, Preserves, if_InRange, clamp_axis-Axis}

clamped : (v lo hi : ℤ) → lo ≤ℤ hi → (lo ≤ℤ clamp v lo hi) × (clamp v lo hi ≤ℤ hi)
unfolding clamp
clamped v lo hi h = ground arith

column : (c : ℤ) → pos 0 ≤ℤ c → c ≤ℤ pos 10 → Axis (quot ((c -ℤ pos 5) *ℤ pos 660) 5)
unfolding quot ◌*ℤ◌ ◌-ℤ◌
column (pos n) lo hi = ground arith
column (negsuc n) lo hi = absurd (omega arith)

row : (r : ℤ) → pos 0 ≤ℤ r → r ≤ℤ pos 4 → Axis (quot ((pos 2 -ℤ r) *ℤ pos 660) 2)
unfolding quot ◌*ℤ◌ ◌-ℤ◌
row (pos n) lo hi = ground arith
row (negsuc n) lo hi = absurd (omega arith)

mouse_h-Axis : (mx box : ℤ) → Axis (mouse_h mx box)
unfolding mouse_h
mouse_h-Axis mx box =
    let c = clamped (mx -ℤ (box +ℤ pos 1)) (pos 0) (pos 10) (omega arith) in column _ c.0 c.1

mouse_v-Axis : (my : ℤ) → Axis (mouse_v my)
unfolding mouse_v
mouse_v-Axis my = let r = clamped (my -ℤ pos 4) (pos 0) (pos 4) (omega arith) in row _ r.0 r.1

-- Clicks on labels leave the axes alone.
same_axes : (d e : EmuState) → axes d ≡ axes e → InRange e → InRange d
same_axes d e q h = subst Ranges (sym q) h

axes-click_button : (x : ℤ) (e : EmuState) → axes (click_button x e) ≡ axes e
unfolding click_button
axes-click_button x e = ground arith

axes-click_five_d : (x : ℤ) (e : EmuState) → axes (click_five_d x e) ≡ axes e
unfolding click_five_d
axes-click_five_d x e = ground arith

axes-click_mode : (x : ℤ) (e : EmuState) → axes (click_mode x e) ≡ axes e
unfolding click_mode
axes-click_mode x e = ground arith

axes_if : (b : Bool) (d e : EmuState) → axes d ≡ axes e → axes (if b then d else e) ≡ axes e
axes_if true d e q = q
axes_if false d e q = refl

axes-click_labels : (e : EmuState) (m : Mouse) → axes (click_labels e m) ≡ axes e
unfolding click_labels
axes-click_labels e m =
    let e2 = if eqb_ℤ m.y (pos 12) then click_button m.x e else e in
    let e3 = if eqb_ℤ m.y (pos 13) then click_five_d m.x e2 else e2 in
    axes_if (eqb_ℤ m.y (pos 14)) (click_mode m.x e3) e3 (axes-click_mode m.x e3)
    ∙ axes_if (eqb_ℤ m.y (pos 13)) (click_five_d m.x e2) e2 (axes-click_five_d m.x e2)
    ∙ axes_if (eqb_ℤ m.y (pos 12)) (click_button m.x e) e (axes-click_button m.x e)

move_left-Preserves : (m : Mouse) → Preserves (λ e. move_left e m)
unfolding move_left
move_left-Preserves m e h = (mouse_h-Axis m.x left_box, mouse_v-Axis m.y, h.2, h.3, h.4, h.5, h.6)

move_right-Preserves : (m : Mouse) → Preserves (λ e. move_right e m)
unfolding move_right
move_right-Preserves m e h = (h.0, h.1, mouse_h-Axis m.x right_box, mouse_v-Axis m.y, h.4, h.5, h.6)

press-Preserves : (m : Mouse) → Preserves (λ e. press e m)
unfolding press
press-Preserves m e h =
    let l = move_left (record e { drag = drag_left_stick }) m in
    let r = move_right (record e { drag = drag_right_stick }) m in
    let c = click_labels e m in
    let in_right = within m.y 4 8 && within m.x 30 40 in
    if_InRange (within m.y 4 8 && within m.x 3 13) l (if in_right then r else c)
      (move_left-Preserves m (record e { drag = drag_left_stick }) h)
      (if_InRange in_right r c (move_right-Preserves m (record e { drag = drag_right_stick }) h)
        (same_axes c e (axes-click_labels e m) h))

scroll-Preserves : (k : Curses) (m : Mouse) → Preserves (λ e. scroll k e m)
unfolding scroll
scroll-Preserves k m e h = by_button5 k.button5_pressed
  where
    up : EmuState
    up =
        if has m k.button4_pressed
        then record e { left_wheel = clamp_axis (e.left_wheel +ℤ wheel_step) }
        else e

    up-InRange : InRange up
    up-InRange =
        if_InRange (has m k.button4_pressed)
          (record e { left_wheel = clamp_axis (e.left_wheel +ℤ wheel_step) }) e
          (h.0, h.1, h.2, h.3, clamp_axis-Axis _, h.5, h.6) h

    by_button5 :
        (b : Option ℕ)
        → InRange (elim b [
          | none ↦ up
          | some mask ↦
              if has m mask
              then record up { left_wheel = clamp_axis (up.left_wheel -ℤ wheel_step) }
              else up
        ])
    by_button5 none = up-InRange
    by_button5 (some mask) =
        let v = up-InRange in
        if_InRange (has m mask)
          (record up { left_wheel = clamp_axis (up.left_wheel -ℤ wheel_step) }) up
          (v.0, v.1, v.2, v.3, clamp_axis-Axis _, v.5, v.6) v

drag_or_scroll-Preserves : (k : Curses) (m : Mouse) → Preserves (λ e. drag_or_scroll k e m)
unfolding drag_or_scroll
drag_or_scroll-Preserves k m e h =
    if_InRange (has m k.report_mouse_position) (dragged e.drag) (scroll k e m) (by_drag e.drag)
      (scroll-Preserves k m e h)
  where
    dragged : DragTarget → EmuState
    dragged d = elim d [
      | drag_none ↦ scroll k e m
      | drag_left_stick ↦ move_left e m
      | drag_right_stick ↦ move_right e m
    ]

    by_drag : (d : DragTarget) → InRange (dragged d)
    by_drag drag_none = scroll-Preserves k m e h
    by_drag drag_left_stick = move_left-Preserves m e h
    by_drag drag_right_stick = move_right-Preserves m e h

pub handle_mouse-Preserves : (k : Curses) (m : Mouse) → Preserves (λ e. handle_mouse k e m)
unfolding handle_mouse
handle_mouse-Preserves k m e h =
    let released = record e { drag = drag_none } in
    let other = if has m k.button1_released then released else drag_or_scroll k e m in
    if_InRange (has m k.button1_pressed) (press e m) other (press-Preserves m e h) (
      if_InRange (has m k.button1_released) released (drag_or_scroll k e m) h
        (drag_or_scroll-Preserves k m e h))
