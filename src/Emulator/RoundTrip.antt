-- ===== src/Emulator/RoundTrip.antt =====
-- `rcm_parse_payload` reads back what the emulator's `build_payload` wrote.
use rc_monitor.Base.{ℕ, ◌+◌, ◌*◌, ◌/◌, ◌%◌, suc, ◌<◌, bit_and, bit_or, ◌≡◌, refl, ap, ap₂, ◌∙◌}
use rc_monitor.Base.{if◌then◌else◌, zero, List, arith, Bool, some}
use rc_monitor.Base.Int.{ℤ, pos, negsuc, ◌+ℤ◌, ◌-ℤ◌, ltb_ℤ, pos_part, neg_part}
use rc_monitor.Base.Word.{u8, shl, of_bool, to_u16}
use rc_monitor.Base.Bits.{and_mask, or_fields_low}
use rc_monitor.State.{flight_mode_code, FlightMode, sport, RcState}
use rc_monitor.Payload.{
  byte_at, read_u16_le, bit_at, axis_at, wheel_delta, flight_mode_of, decode_payload, parse_payload,
}
use rc_monitor.Payload.Bytes.{axis_of, axis_of-to_u16}
use rc_monitor.Payload.Ranges.{Between, to_u16-lt, parse_payload_ok}
use rc_monitor.Emulator.{
  EmuState, clamp, put_u16_le, buttons_byte, joystick_byte, mode_byte, delta_byte, build_payload,
}

-- What the controller shows of an emulator state: the same values, the wheel's movement clamped to
-- the 31 steps that the field can hold.
unfoldable pub shown : EmuState → RcState
shown e = record {
  pause = e.pause;
  gohome = e.gohome;
  shutter = e.shutter;
  record_button = e.record_button;
  custom1 = e.custom1;
  custom2 = e.custom2;
  custom3 = e.custom3;
  five_d = record {
    up = e.five_d_up;
    down = e.five_d_down;
    left = e.five_d_left;
    right = e.five_d_right;
    center = e.five_d_center;
  };
  flight_mode = e.flight_mode;
  stick_right = record { horizontal = e.stick_right_h; vertical = e.stick_right_v };
  stick_left = record { horizontal = e.stick_left_h; vertical = e.stick_left_v };
  left_wheel = e.left_wheel;
  right_wheel = e.right_wheel;
  right_wheel_delta = clamp e.right_wheel_delta (negsuc 30) (pos 31);
}

abbrev pub FitsAxis : ℤ → Type 0
FitsAxis v = Between 32768 32767 v

-- The six analog values fit an `int16_t`.
pub record FitsAxes (e : EmuState) : Type 0 where
  pub left_h : FitsAxis e.stick_left_h
  pub left_v : FitsAxis e.stick_left_v
  pub right_h : FitsAxis e.stick_right_h
  pub right_v : FitsAxis e.stick_right_v
  pub wheel_left : FitsAxis e.left_wheel
  pub wheel_right : FitsAxis e.right_wheel

-- Every byte of three buttons, by its eight values.
buttons_read :
    (p g s : Bool)
    → let b = u8 (bit_or (bit_or (shl (of_bool p) 4) (shl (of_bool g) 5)) (shl (of_bool s) 6)) in
      (bit_at b 4 ≡ p) × (bit_at b 5 ≡ g) × (bit_at b 6 ≡ s)
unfolding bit_at
buttons_read p g s = ground arith

joystick_read :
    (r x u d l c : Bool)
    → let b = u8 (
        bit_or
          (bit_or
            (bit_or
              (bit_or (bit_or (shl (of_bool r) 0) (shl (of_bool x) 3)) (shl (of_bool u) 4))
              (shl (of_bool d) 5))
            (shl (of_bool l) 6))
          (shl (of_bool c) 7)) in
      (bit_at b 0 ≡ r)
      × (bit_at b 3 ≡ x)
      × (bit_at b 4 ≡ u)
      × (bit_at b 5 ≡ d)
      × (bit_at b 6 ≡ l)
      × (bit_at b 7 ≡ c)
unfolding bit_at
joystick_read r x u d l c = ground arith

mode_read :
    (m : FlightMode) (a b c : Bool)
    → let w = u8 (
        bit_or
          (bit_or
            (bit_or (bit_and (flight_mode_code m) 0x03) (shl (of_bool a) 2))
            (shl (of_bool b) 3))
          (shl (of_bool c) 4)) in
      (flight_mode_of (bit_and w 0x03) ≡ m) × (bit_at w 2 ≡ a) × (bit_at w 3 ≡ b) × (bit_at w 4 ≡ c)
unfolding bit_at flight_mode_of
mode_read sport a b c = ground arith
mode_read m a b c = ground arith

-- The two bytes of a 16-bit value, read back.
word_bytes :
    (w : ℕ)
    → w < 65536
    → bit_or (u8 (bit_and w 0xff) % 65536) (u8 (bit_and (w / 256) 0xff) % 65536 * 256) ≡ w
word_bytes w h =
    ap₂ bit_or {x = u8 (bit_and w 0xff) % 65536} {y = w % 256} (omega (arith, and_mask 8 w))
      (omega (arith, and_mask 8 (w / 256)))
    ∙ or_fields_low 8 (w / 256) (w % 256) (omega arith)
    ∙ omega arith

-- An axis that fits comes back, wherever its two bytes stand.
axis_read :
    (p : List ℕ) (i : ℕ) (v : ℤ)
    → FitsAxis v
    → byte_at p i ≡ u8 (bit_and (to_u16 (v +ℤ pos 0x400)) 0xff)
    → byte_at p (i + 1) ≡ u8 (bit_and (to_u16 (v +ℤ pos 0x400) / 256) 0xff)
    → axis_at p i ≡ v
unfolding axis_at read_u16_le axis_of ◌-ℤ◌
axis_read p i v fits low high =
    rw (low, high, word_bytes (to_u16 (v +ℤ pos 0x400)) (to_u16-lt (v +ℤ pos 0x400)))
      (axis_of-to_u16 v fits.0 fits.1)

clamp_range : (d : ℤ) → Between 31 31 (clamp d (negsuc 30) (pos 31))
unfolding clamp ◌-ℤ◌
clamp_range (pos n) = ground arith
clamp_range (negsuc n) = ground arith

delta_up : (m : ℕ) → m < 32 → wheel_delta (u8 (bit_or (m * 2) 64)) ≡ pos m
unfolding wheel_delta ◌-ℤ◌
delta_up m h =
    rw (or_fields_low 6 1 (m * 2) (omega arith))
      (ground (arith, and_mask 5 ((m * 2 + 64) % 256 / 2), and_mask 1 ((m * 2 + 64) % 256 / 64)))

delta_down : (m : ℕ) → m < 31 → wheel_delta (u8 (suc m * 2)) ≡ negsuc m
unfolding wheel_delta ◌-ℤ◌
delta_down m h = ground (arith, and_mask 5 (suc m * 2 % 256 / 2), and_mask 1 (suc m * 2 % 256 / 64))

delta_none : wheel_delta 0 ≡ pos 0
unfolding wheel_delta ◌-ℤ◌
delta_none = refl

-- A movement of at most 31 steps comes back.
small_delta_read :
    (c : ℤ)
    → Between 31 31 c
    → wheel_delta (
        if ltb_ℤ (pos 0) c
        then u8 (bit_or (shl (pos_part c) 1) (shl 1 6))
        else if ltb_ℤ c (pos 0)
        then u8 (shl (neg_part c) 1)
        else 0)
      ≡ c
unfolding ◌-ℤ◌
small_delta_read (pos zero) h = delta_none
small_delta_read (pos (suc n)) h = ground (arith, delta_up (suc n))
small_delta_read (negsuc n) h = ground (arith, delta_down n)

delta_read : (d : ℤ) → wheel_delta (delta_byte d) ≡ clamp d (negsuc 30) (pos 31)
unfolding delta_byte
delta_read d = small_delta_read (clamp d (negsuc 30) (pos 31)) (clamp_range d)

pub decode-build : (e : EmuState) → FitsAxes e → decode_payload (build_payload e) ≡ shown e
unfolding decode_payload build_payload put_u16_le buttons_byte joystick_byte mode_byte shown
decode-build e fits =
    let b = buttons_read e.pause e.gohome e.shutter in
    let j =
      joystick_read e.record_button e.five_d_right e.five_d_up e.five_d_down e.five_d_left
        e.five_d_center in
    let m = mode_read e.flight_mode e.custom1 e.custom2 e.custom3 in
    cc (
      b.0,
      b.1,
      b.2,
      j.0,
      j.1,
      j.2,
      j.3,
      j.4,
      j.5,
      m.0,
      m.1,
      m.2,
      m.3,
      delta_read e.right_wheel_delta,
      axis_read (build_payload e) 5 e.stick_right_h fits.right_h refl refl,
      axis_read (build_payload e) 7 e.stick_right_v fits.right_v refl refl,
      axis_read (build_payload e) 9 e.stick_left_v fits.left_v refl refl,
      axis_read (build_payload e) 11 e.stick_left_h fits.left_h refl refl,
      axis_read (build_payload e) 13 e.left_wheel fits.wheel_left refl refl,
      axis_read (build_payload e) 15 e.right_wheel fits.wheel_right refl refl,
    )

-- Where the six analog values fit an `int16_t`, `rcm_parse_payload` accepts the 17 bytes that
-- `build_payload` writes and recovers every field, whatever `*out` held: buttons, joystick, flight
-- mode, sticks and wheels as they are, and the wheel's movement clamped to 31 steps.
pub parse_payload-build_payload :
    (e : EmuState) (old : RcState)
    → FitsAxes e
    → parse_payload (some (build_payload e)) 17 (some old) ≡ (pos 0, some (shown e))
parse_payload-build_payload e old fits =
    parse_payload_ok (build_payload e) 17 old (omega arith)
    ∙ ap (λ s. (pos 0, some s)) (decode-build e fits)
