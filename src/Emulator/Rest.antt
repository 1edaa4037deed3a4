-- ===== src/Emulator/Rest.antt =====
-- Sticks that are let go come to rest: `decay_sticks` halves their deflection in each round.
use rc_monitor.Base.{ℕ, zero, suc, ◌+◌, ◌/◌, ◌≤◌, ◌≡◌, refl, ap, arith}
use rc_monitor.Base.Int.{ℤ, pos, negsuc, quot, pos_part, neg_part, ◌-ℤ◌}
use rc_monitor.Emulator.{EmuState, drag_none}
use rc_monitor.Emulator.Input.{decay_left, decay_right, decay_sticks}
use rc_monitor.Emulator.Axes.{Axis, InRange}

-- `n` rounds without input.
unfoldable pub decayed : ℕ → EmuState → EmuState
decayed zero e = e
decayed (suc n) e = decayed n (decay_sticks e)

-- |v|
abbrev pub size : ℤ → ℕ
size v = pos_part v + neg_part v

-- No drag, and each deflection at most `b`.
pub record AtMost (b : ℕ) (e : EmuState) : Type 0 where
  pub free : e.drag ≡ drag_none
  pub left_h : size e.stick_left_h ≤ b
  pub left_v : size e.stick_left_v ≤ b
  pub right_h : size e.stick_right_h ≤ b
  pub right_v : size e.stick_right_v ≤ b

half : (b : ℕ) (v : ℤ) → size v ≤ b → size (quot v 2) ≤ b / 2
unfolding quot ◌-ℤ◌
half b (pos n) h = ground arith
half b (negsuc n) h = ground arith

in_range : (v : ℤ) → Axis v → size v ≤ 660
unfolding ◌-ℤ◌
in_range (pos n) h = ground arith
in_range (negsuc n) h = ground arith

at_rest : (v : ℤ) → size v ≤ 0 → v ≡ pos 0
at_rest (pos n) h = ap pos (omega arith)
at_rest (negsuc n) h = absurd (omega arith)

decay-AtMost : (b : ℕ) (e : EmuState) → AtMost b e → AtMost (b / 2) (decay_sticks e)
unfolding decay_sticks decay_left decay_right
decay-AtMost b e h = rw h.free (record {
  free = refl;
  left_h = half b e.stick_left_h h.left_h;
  left_v = half b e.stick_left_v h.left_v;
  right_h = half b e.stick_right_h h.right_h;
  right_v = half b e.stick_right_v h.right_v;
})

halves : ℕ → ℕ → ℕ
halves zero b = b
halves (suc n) b = halves n (b / 2)

decayed-AtMost : (n b : ℕ) (e : EmuState) → AtMost b e → AtMost (halves n b) (decayed n e)
unfolding decayed halves
decayed-AtMost zero b e h = h
decayed-AtMost (suc n) b e h = decayed-AtMost n (b / 2) (decay_sticks e) (decay-AtMost b e h)

stays : (n : ℕ) (e : EmuState) → AtMost 0 e → AtMost 0 (decayed n e)
unfolding decayed
stays zero e h = h
stays (suc n) e h = stays n (decay_sticks e) (decay-AtMost 0 e h)

-- Where no stick is dragged and the axes are in range, ten rounds without input bring all four
-- deflections to 0, and further rounds without input leave them there.
pub decay_sticks-rests :
    (e : EmuState) (n : ℕ)
    → InRange e
    → e.drag ≡ drag_none
    → let f = decayed n (decayed 10 e) in
      (f.stick_left_h ≡ pos 0)
      × (f.stick_left_v ≡ pos 0)
      × (f.stick_right_h ≡ pos 0)
      × (f.stick_right_v ≡ pos 0)
unfolding halves
decay_sticks-rests e n range free =
    let start : AtMost 660 e = record {
      free = free;
      left_h = in_range e.stick_left_h range.0;
      left_v = in_range e.stick_left_v range.1;
      right_h = in_range e.stick_right_h range.2;
      right_v = in_range e.stick_right_v range.3;
    } in
    let rest = stays n (decayed 10 e) (decayed-AtMost 10 660 e start) in
    (at_rest _ rest.left_h, at_rest _ rest.left_v, at_rest _ rest.right_h, at_rest _ rest.right_v)
