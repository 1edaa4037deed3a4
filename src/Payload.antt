-- ===== src/Payload.antt =====
-- src/rc_monitor.c: the payload decoder `rcm_parse_payload`, and `rcm_flight_mode_str`.
pub mod Bytes
pub mod Ranges
mod Tests
use Prim.Native.String.{String}
use rc_monitor.Base.{ℕ, ◌+◌, ◌-◌, ◌%◌, ◌^◌, bit_and, bit_or, List, get_or, Option, none, some}
use rc_monitor.Base.{Bool, ltb, if◌then◌else◌}
use rc_monitor.Base.Word.{shr, shl, to_bool, to_i16, to_i8, u16}
use rc_monitor.Base.Int.{ℤ, pos, negsuc, ◌-ℤ◌}
use rc_monitor.State.{
  FlightMode, sport, normal, tripod, unknown, FiveD, Stick, RcState, rc_push_payload_len,
}

-- `p[i]`
abbrev pub byte_at : List ℕ → ℕ → ℕ
byte_at p i = get_or p i 0

-- `read_u16_le(p + i)`
unfoldable pub read_u16_le : List ℕ → ℕ → ℕ
read_u16_le p i = bit_or (u16 (byte_at p i)) (shl (u16 (byte_at p (i + 1))) 8)

-- `(b >> k) & 1`, stored in a `bool`
unfoldable pub bit_at : ℕ → ℕ → Bool
bit_at b k = to_bool (bit_and (shr b k) 1)

-- The cast of a two-bit number to `rc_flight_mode_t`.
unfoldable pub flight_mode_of : ℕ → FlightMode
flight_mode_of n =
    if ltb n 1 then sport else if ltb n 2 then normal else if ltb n 3 then tripod else unknown

-- `(int16_t)(read_u16_le(p + i) - 0x400)`: the difference is an `int`, and the cast wraps.
unfoldable pub axis_at : List ℕ → ℕ → ℤ
axis_at p i = to_i16 (pos (read_u16_le p i) -ℤ pos 0x400)

-- The signed magnitude of the wheel's movement: `(int8_t)(sign ? mag : -mag)`.
unfoldable pub wheel_delta : ℕ → ℤ
wheel_delta b4 =
    let mag = bit_and (shr b4 1) 0x1f in
    let sign = bit_and (shr b4 6) 1 in to_i8 (if to_bool sign then pos mag else pos 0 -ℤ pos mag)

-- The state that the first 17 bytes hold.
unfoldable pub decode_payload : List ℕ → RcState
decode_payload payload =
    let b0 = byte_at payload 0 in
    let b1 = byte_at payload 1 in
    let b2 = byte_at payload 2 in
    let b4 = byte_at payload 4 in
    record {
      pause = bit_at b0 4;
      gohome = bit_at b0 5;
      shutter = bit_at b0 6;
      record_button = bit_at b1 0;
      custom1 = bit_at b2 2;
      custom2 = bit_at b2 3;
      custom3 = bit_at b2 4;
      five_d = record {
        up = bit_at b1 4;
        down = bit_at b1 5;
        left = bit_at b1 6;
        right = bit_at b1 3;
        center = bit_at b1 7;
      };
      flight_mode = flight_mode_of (bit_and b2 0x03);
      stick_right = record { horizontal = axis_at payload 5; vertical = axis_at payload 7 };
      stick_left = record { horizontal = axis_at payload 11; vertical = axis_at payload 9 };
      left_wheel = axis_at payload 13;
      right_wheel = axis_at payload 15;
      right_wheel_delta = wheel_delta b4;
    }

-- `rcm_parse_payload`: `none` is a null pointer, and `out` what `*out` holds before the call. The
-- `memset` of `*out` leaves no trace, since every field is assigned after it.
unfoldable pub parse_payload : Option (List ℕ) → ℕ → Option RcState → ℤ × Option RcState
parse_payload none len out = (negsuc 0, out)
parse_payload (some payload) len none = (negsuc 0, none)
parse_payload (some payload) len (some old) =
    if ltb len rc_push_payload_len
    then (negsuc 0, some old)
    else (pos 0, some (decode_payload payload))

-- `rcm_flight_mode_str`
unfoldable pub flight_mode_str : FlightMode → String
flight_mode_str sport = "Sport"
flight_mode_str normal = "Normal"
flight_mode_str tripod = "Tripod"
flight_mode_str unknown = "Unknown"
