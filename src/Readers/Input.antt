-- ===== src/Readers/Input.antt =====
-- InputEventReader.java: stick events of the input device become payloads for `feedDirect`. The stream
-- and the scaling, a product of floating-point numbers that is cut to an `int`, are parameters. A call
-- of `stop` by another thread, which closes the stream, is not modelled.
pub mod Payload
pub mod Loop
mod Tests
use rc_monitor.Base.{
  ℕ, zero, suc, ◌+◌, ◌-◌, ◌*◌, ◌^◌, ◌%◌, bit_and, List, [], ◌∷◌, ◌++◌, length, get_or, set,
  replicate, Option, none, some, ltb, leb, ◌==◌, if◌then◌else◌,
}
use rc_monitor.Base.Int.{ℤ, pos, negsuc, ◌+ℤ◌}
use rc_monitor.Base.Word.{u8, shr, to_u16}

-- `INPUT_EVENT_SIZE`, `EV_SYN`, `EV_ABS`, and the codes of the axes.
abbrev pub input_event_size : ℕ
input_event_size = 24

abbrev pub ev_syn : ℕ
ev_syn = 0x00

abbrev pub ev_abs : ℕ
ev_abs = 0x03

abbrev pub abs_x : ℕ
abs_x = 0x00

abbrev pub abs_y : ℕ
abs_y = 0x01

abbrev pub abs_z : ℕ
abs_z = 0x02

abbrev pub abs_rz : ℕ
abs_rz = 0x05

-- The fields `stickRightH` to `stickLeftH`.
pub record Sticks : Type 0 where
  pub right_h : ℤ
  pub right_v : ℤ
  pub left_v : ℤ
  pub left_h : ℤ

abbrev pub centre : Sticks
centre = record { right_h = pos 0; right_v = pos 0; left_v = pos 0; left_h = pos 0 }

-- What `bb` yields behind the two times: `getShort() & 0xFFFF` twice, then `getInt()`.
pub record InputEvent : Type 0 where
  pub type : ℕ
  pub code : ℕ
  pub value : ℤ

unfoldable pub get_short : List ℕ → ℕ → ℕ
get_short buf i = get_or buf i 0 + 256 * get_or buf (i + 1) 0

unfoldable pub get_int : List ℕ → ℕ → ℤ
unfolding get_short
get_int buf i =
    let w = get_short buf i + 65536 * get_short buf (i + 2) in
    if ltb w (2 ^ 31) then pos w else negsuc (2 ^ 32 - 1 - w)

unfoldable pub parse_event : List ℕ → InputEvent
parse_event buf = record {
  type = get_short buf 16;
  code = get_short buf 18;
  value = get_int buf 20;
}

-- The `switch` over the code.
unfoldable pub move_axis : ℕ → ℤ → Sticks → Sticks
move_axis code scaled s =
    if code == abs_x
    then record s { right_h = scaled }
    else if code == abs_y
    then record s { right_v = scaled }
    else if code == abs_z
    then record s { left_v = scaled }
    else if code == abs_rz
    then record s { left_h = scaled }
    else s

-- `putLE16`: the two low bytes of the `int`.
unfoldable pub put_le16 : List ℕ → ℕ → ℤ → List ℕ
put_le16 buf offset v =
    set (set buf offset (u8 (bit_and (to_u16 v) 0xff))) (offset + 1)
      (u8 (bit_and (shr (to_u16 v) 8) 0xff))

-- `buildPayload`
unfoldable pub input_payload : Sticks → List ℕ
unfolding put_le16
input_payload s =
    let p = replicate 17 0 in
    let p = put_le16 p 5 (pos 0x400 +ℤ s.right_h) in
    let p = put_le16 p 7 (pos 0x400 +ℤ s.right_v) in
    let p = put_le16 p 9 (pos 0x400 +ℤ s.left_v) in
    let p = put_le16 p 11 (pos 0x400 +ℤ s.left_h) in
    let p = put_le16 p 13 (pos 0x400) in put_le16 p 15 (pos 0x400)

-- What an event does: to the sticks, and the payload that is fed, if any.
unfoldable pub on_event : (ℤ → ℤ) → InputEvent → Sticks → Sticks × List (List ℕ)
on_event scale e s =
    if e.type == ev_abs
    then (move_axis e.code (scale e.value) s, [])
    else if e.type == ev_syn
    then (s, input_payload s ∷ [])
    else (s, [])

-- `fis.read(buf, off, len)`: the bytes that it stores, or none where it returns -1.
pub record Source (F : Type 0) : Type 0 where
  pub read : F → ℕ → Option (List ℕ) × F

-- What comes of a read: the end, or the bytes of it and the next rounds.
unfoldable pub filled_by :
    {F : Type 0}
    → (F → List ℕ → Option (Option (List ℕ) × F))
    → List ℕ
    → Option (List ℕ) × F
    → Option (Option (List ℕ) × F)
filled_by again buf (none, f) = some (none, f)
filled_by again buf (some c, f) = again f (buf ++ c)

module _ {F : Type 0} (source : Source F) where
  -- `while (total < INPUT_EVENT_SIZE)` with fuel, from the bytes in `eventBuf` so far: the bytes in the
  -- end, or none where the device is at its end.
  unfoldable pub fill : ℕ → F → List ℕ → Option (Option (List ℕ) × F)
  fill zero f buf = none
  fill (suc fuel) f buf =
      let rest = filled_by (fill fuel) buf (source.read f (input_event_size - length buf)) in
      if ltb (length buf) input_event_size then rest else some (some buf, f)

  -- What follows the inner loop.
  unfoldable pub with_event :
      (ℤ → ℤ)
      → (F → Sticks → Option (List (List ℕ)))
      → Sticks
      → Option (Option (List ℕ) × F)
      → Option (List (List ℕ))
  with_event scale rest s none = none
  with_event scale rest s (some (none, f)) = some []
  with_event scale rest s (some (some buf, f)) =
      let r = on_event scale (parse_event buf) s in
      elim (rest f r.0) [ none ↦ none | some more ↦ some (r.1 ++ more) ]

  -- `while (running)` with fuel: the payloads fed. The inner loop takes at least a byte in a round.
  unfoldable pub read_events : (ℤ → ℤ) → ℕ → F → Sticks → Option (List (List ℕ))
  read_events scale zero f s = none
  read_events scale (suc fuel) f s =
      with_event scale (read_events scale fuel) s (fill (suc input_event_size) f [])
