-- ===== src/Emulator.antt =====
-- emulator/rc_emulator.c: the virtual controller. `build_payload` is the encoder that
-- `rcm_parse_payload` reads back; the input handlers and the decay are in the children.
pub mod RoundTrip
pub mod Input
pub mod Draw
pub mod Axes
pub mod Range
pub mod Rest
pub mod Session
pub mod Main
mod Tests
use rc_monitor.Base.{ℕ, ◌+◌, ◌%◌, ◌^◌, bit_and, bit_or, List, [], ◌∷◌, ◌++◌, Bool, if◌then◌else◌}
use rc_monitor.Base.Int.{ℤ, pos, negsuc, pos_part, neg_part, ◌+ℤ◌, ◌-ℤ◌, ltb_ℤ}
use rc_monitor.Base.Word.{u8, shl, shr, of_bool, to_u16, to_u8}
use rc_monitor.State.{FlightMode, flight_mode_code}

-- `enum drag_target`
pub data DragTarget : Type 0 where
  drag_none drag_left_stick drag_right_stick : DragTarget

-- `emu_state_t`
pub record EmuState : Type 0 where
  pub stick_left_h : ℤ
  pub stick_left_v : ℤ
  pub stick_right_h : ℤ
  pub stick_right_v : ℤ
  pub left_wheel : ℤ
  pub right_wheel : ℤ
  pub right_wheel_delta : ℤ
  pub pause : Bool
  pub gohome : Bool
  pub shutter : Bool
  pub record_button : Bool
  pub custom1 : Bool
  pub custom2 : Bool
  pub custom3 : Bool
  pub five_d_up : Bool
  pub five_d_down : Bool
  pub five_d_left : Bool
  pub five_d_right : Bool
  pub five_d_center : Bool
  pub flight_mode : FlightMode
  pub drag : DragTarget

-- `clamp`
unfoldable pub clamp : ℤ → ℤ → ℤ → ℤ
clamp v lo hi = if ltb_ℤ v lo then lo else if ltb_ℤ hi v then hi else v

-- `put_u16_le`: the two bytes that it stores.
unfoldable pub put_u16_le : ℕ → List ℕ
put_u16_le v = u8 (bit_and v 0xff) ∷ u8 (bit_and (shr v 8) 0xff) ∷ []

-- Bytes 0, 1 and 2 of the payload.
unfoldable pub buttons_byte : EmuState → ℕ
buttons_byte e = u8 (
    bit_or (bit_or (shl (of_bool e.pause) 4) (shl (of_bool e.gohome) 5))
      (shl (of_bool e.shutter) 6))

unfoldable pub joystick_byte : EmuState → ℕ
joystick_byte e = u8 (
    bit_or
      (bit_or
        (bit_or
          (bit_or (bit_or (shl (of_bool e.record_button) 0) (shl (of_bool e.five_d_right) 3))
            (shl (of_bool e.five_d_up) 4))
          (shl (of_bool e.five_d_down) 5))
        (shl (of_bool e.five_d_left) 6))
      (shl (of_bool e.five_d_center) 7))

unfoldable pub mode_byte : EmuState → ℕ
mode_byte e = u8 (
    bit_or
      (bit_or (bit_or (bit_and (flight_mode_code e.flight_mode) 0x03) (shl (of_bool e.custom1) 2))
        (shl (of_bool e.custom2) 3))
      (shl (of_bool e.custom3) 4))

-- Byte 4: zero unless the wheel moved. The magnitude is positive in both branches.
unfoldable pub delta_byte : ℤ → ℕ
delta_byte delta =
    let d = clamp delta (negsuc 30) (pos 31) in
    if ltb_ℤ (pos 0) d
    then u8 (bit_or (shl (pos_part d) 1) (shl 1 6))
    else if ltb_ℤ d (pos 0)
    then u8 (shl (neg_part d) 1)
    else 0

-- `build_payload`: what the 17 bytes of `out` hold in the end. Byte 3 keeps the zero of the `memset`.
unfoldable pub build_payload : EmuState → List ℕ
build_payload e =
    buttons_byte e
    ∷ joystick_byte e
    ∷ mode_byte e
    ∷ 0
    ∷ delta_byte e.right_wheel_delta
    ∷ (put_u16_le (to_u16 (e.stick_right_h +ℤ pos 0x400))
        ++ (put_u16_le (to_u16 (e.stick_right_v +ℤ pos 0x400))
            ++ (put_u16_le (to_u16 (e.stick_left_v +ℤ pos 0x400))
                ++ (put_u16_le (to_u16 (e.stick_left_h +ℤ pos 0x400))
                    ++ (put_u16_le (to_u16 (e.left_wheel +ℤ pos 0x400))
                        ++ put_u16_le (to_u16 (e.right_wheel +ℤ pos 0x400)))))))
