-- ===== src/Payload/Tests.antt =====
-- The decoder on a payload with every button of the first byte pressed.
use rc_monitor.Base.{ℕ, ◌≡◌, refl, List, [], ◌∷◌}
use rc_monitor.Base.Int.{pos, negsuc, ◌-ℤ◌}
use rc_monitor.Payload.{axis_at, read_u16_le}

abbrev payload : List ℕ
payload =
    0x70 ∷ 0x11 ∷ 0x01 ∷ 0 ∷ 0x4a ∷ 0x94 ∷ 0x06 ∷ 0 ∷ 4 ∷ 0 ∷ 4 ∷ 0x6c ∷ 1 ∷ 0 ∷ 4 ∷ 0 ∷ 4 ∷ []

-- The right stick is fully to the right, the left one fully to the left.
axis_right : axis_at payload 5 ≡ pos 660
unfolding axis_at read_u16_le ◌-ℤ◌
axis_right = refl

axis_left : axis_at payload 11 ≡ negsuc 659
unfolding axis_at read_u16_le ◌-ℤ◌
axis_left = refl
