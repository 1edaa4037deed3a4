-- ===== src/Parser.antt =====
-- src/rc_monitor.c: the parser of the byte stream. `struct rcm_parser` with its ring buffer, the
-- frame assembly of `try_decode_frame`, and `rcm_feed`. The calls of the callback are a list of
-- states, in the order of the calls; `callback` and `userdata` themselves are the client's.
pub mod Ring
pub mod Overflow
pub mod Valid
pub mod Step
pub mod Decode
pub mod Feed
pub mod Deliver
pub mod Chunks
mod Tests
use rc_monitor.Base.{
  ℕ, zero, suc, ◌+◌, ◌-◌, ◌%◌, ◌^◌, bit_and, bit_or, Bool, true, false, not, ◌&&◌, ◌||◌,
}
use rc_monitor.Base.{List, [], ◌∷◌, ◌++◌, get_or, set, take, drop, replicate, Option, none, some}
use rc_monitor.Base.{ltb, leb, ◌==◌, if◌then◌else◌}
use rc_monitor.Base.Int.{ℤ, pos, negsuc}
use rc_monitor.Base.Word.{u16, shl, add_size, sub_size}
use rc_monitor.State.{
  RcState, duml_sof, duml_cmd_set_rc, duml_cmd_rc_push, duml_min_frame_len, duml_max_frame_len,
  rc_push_payload_len,
}
use rc_monitor.Payload.{byte_at, parse_payload, decode_payload}
use rc_monitor.Crc.{duml_crc8, duml_crc16}

-- `RING_SIZE`
abbrev pub ring_size : ℕ
ring_size = 4096

-- The `state` of the frame assembly: `SCAN_SOF` and `READ_FRAME`.
pub data Assembly : Type 0 where
  scan_sof read_frame : Assembly

-- `struct rcm_parser`
pub record Parser : Type 0 where
  pub ring : List ℕ
  pub head : ℕ
  pub count : ℕ
  pub state : Assembly
  pub frame_len : ℕ

-- `calloc` with the assignments after it.
unfoldable pub fresh : Parser
fresh = record {
  ring = replicate ring_size 0;
  head = 0;
  count = 0;
  state = scan_sof;
  frame_len = 0;
}

-- `rcm_create`: whether a callback is given, and whether `calloc` succeeds. `none` is NULL.
unfoldable pub create : Bool → Bool → Option Parser
create false allocated = none
create true false = none
create true true = some fresh

-- `rcm_reset`: a null parser is left alone, and the ring keeps its bytes.
unfoldable pub reset : Option Parser → Option Parser
reset none = none
reset (some p) = some (record p { head = 0; count = 0; state = scan_sof; frame_len = 0 })

-- `rcm_destroy`: the parser is gone, and a null parser is left alone.
unfoldable pub destroy : Option Parser → Option Parser
destroy none = none
destroy (some p) = none

-- The index into the array of the byte at `idx`, where 0 is the oldest.
unfoldable pub slot : ℕ → ℕ → ℕ → ℕ
slot head count idx =
    let tail = sub_size (add_size head ring_size) count % ring_size in add_size tail idx % ring_size

-- `ring_peek`. An index out of the array, which the invariant excludes, would read 0.
unfoldable pub ring_peek : Parser → ℕ → ℕ
ring_peek p idx = get_or p.ring (slot p.head p.count idx) 0

-- `ring_copy`: the bytes that it stores into `dst[0..n)`.
unfoldable pub ring_copy : Parser → ℕ → ℕ → List ℕ
ring_copy p idx zero = []
ring_copy p idx (suc n) = ring_peek p idx ∷ ring_copy p (idx + 1) n

-- `ring_consume`
unfoldable pub ring_consume : Parser → ℕ → Parser
ring_consume p n = record p { count = p.count - (if ltb p.count n then p.count else n) }

-- `ring_push`: over a full buffer the oldest byte is lost.
unfoldable pub ring_push : Parser → ℕ → Parser
ring_push p b = record p {
  ring = set p.ring p.head b;
  head = add_size p.head 1 % ring_size;
  count = if ltb p.count ring_size then p.count + 1 else p.count;
}

-- What `try_decode_frame` returns: -1, 0, or 1 with the state that the callback was given.
pub data Ret : Type 0 where
  need_more other_frame : Ret
  push_frame : RcState → Ret

-- The state that a call of `rcm_parse_payload` leaves in `*out` when it returns 0.
unfoldable pub parsed : ℤ × Option RcState → Option RcState
parsed (pos zero, out) = out
parsed (pos (suc n), out) = none
parsed (negsuc n, out) = none

-- The local `rc_state_t state`, before it is assigned. No result depends on it.
unfoldable pub blank : RcState
unfolding decode_payload
blank = decode_payload []

-- `frame[off] == DUML_CMD_SET_RC && frame[off + 1] == DUML_CMD_RC_PUSH`
unfoldable pub is_rc_push : List ℕ → ℕ → Bool
is_rc_push frame off =
    byte_at frame off == duml_cmd_set_rc && byte_at frame (off + 1) == duml_cmd_rc_push

-- The payload at the offset of the standard header.
unfoldable pub standard_payload : List ℕ → ℕ → Option RcState
standard_payload frame len =
    if leb 13 len && is_rc_push frame 9
    then (let payload_len = len - 13 in
        if leb rc_push_payload_len payload_len
        then parsed (parse_payload (some (drop 11 frame)) payload_len (some blank))
        else none)
    else none

-- The payload behind a pair at `off`, of 17 to 21 bytes.
unfoldable pub payload_at : List ℕ → ℕ → ℕ → Option RcState
payload_at frame len off =
    if is_rc_push frame off
    then (let payload_len = len - 2 - (off + 2) in
        if leb rc_push_payload_len payload_len && leb payload_len (rc_push_payload_len + 4)
        then parsed (parse_payload (some (drop (off + 2) frame)) payload_len (some blank))
        else none)
    else none

-- The loop over `off`, with `rounds` of its five rounds left.
unfoldable pub search_payload : ℕ → List ℕ → ℕ → ℕ → Ret
search_payload zero frame len off = other_frame
search_payload (suc rounds) frame len off =
    let rest = search_payload rounds frame len (off + 1) in
    if leb (off + 2 + rc_push_payload_len) (len - 2)
    then elim (payload_at frame len off) [ some s ↦ push_frame s | none ↦ rest ]
    else other_frame

-- What a frame with a good checksum leads to.
unfoldable pub deliver : List ℕ → ℕ → Ret
deliver frame len = elim (standard_payload frame len) [
  | some s ↦ push_frame s
  | none ↦ if leb 14 len then search_payload 5 frame len 8 else other_frame
]

-- One round of the outer loop: it goes on, or it returns.
pub data Round : Type 0 where
  again : Parser → Round
  return : Ret → Parser → Round

-- The part in state `READ_FRAME`.
unfoldable pub read_body : Parser → Round
read_body p =
    if ltb p.count p.frame_len
    then return need_more p
    else (let frame = ring_copy p 0 p.frame_len in
        let expected =
          bit_or (u16 (byte_at frame (p.frame_len - 2)))
            (shl (u16 (byte_at frame (p.frame_len - 1))) 8) in
        let actual = duml_crc16 (take (p.frame_len - 2) frame) in
        let p' = record (ring_consume p p.frame_len) { state = scan_sof } in
        if not (actual == expected) then again p' else return (deliver frame p.frame_len) p')

-- The length in the header: `len_ver & 0x03FF`.
unfoldable pub header_len : Parser → ℕ
header_len p =
    let hdr = ring_copy p 0 3 in
    bit_and (bit_or (u16 (byte_at hdr 1)) (shl (u16 (byte_at hdr 2)) 8)) 0x3ff

-- A header with a good checksum: its length is stored, and in range the frame is read at once.
unfoldable pub accept_header : Parser → Round
accept_header p =
    let p' = record p { frame_len = header_len p } in
    if ltb p'.frame_len duml_min_frame_len || ltb duml_max_frame_len p'.frame_len
    then again (ring_consume p' 1)
    else read_body (record p' { state = read_frame })

-- The part in state `SCAN_SOF`, which falls through to the other once a header is found.
unfoldable pub scan_header : Parser → Round
scan_header p =
    if not (ring_peek p 0 == duml_sof)
    then again (ring_consume p 1)
    else if ltb p.count 4
    then return need_more p
    else if not (duml_crc8 (ring_copy p 0 3) == ring_peek p 3)
    then again (ring_consume p 1)
    else accept_header p

unfoldable pub round_of : Assembly → Parser → Round
round_of scan_sof p = scan_header p
round_of read_frame p = read_body p

-- The loop `while (p->count > 0)` with fuel. `none` means that the fuel ran out.
unfoldable pub try_decode : ℕ → Parser → Option (Ret × Parser)
try_decode zero p = none
try_decode (suc fuel) p =
    if p.count == 0
    then some (need_more, p)
    else elim (round_of p.state p) [ again p' ↦ try_decode fuel p' | return r p' ↦ some (r, p') ]

-- `try_decode_frame`: a round that goes on consumes a byte, so `count + 1` rounds are enough.
unfoldable pub try_decode_frame : Parser → Option (Ret × Parser)
try_decode_frame p = try_decode (suc p.count) p

-- The running state of `rcm_feed`: its counter, the calls of the callback, and the parser.
pub record Fed : Type 0 where
  pub decoded : ℕ
  pub calls : List RcState
  pub parser : Parser

-- `while ((ret = try_decode_frame(p)) >= 0) decoded += ret;` with fuel.
unfoldable pub drain : ℕ → Fed → Option Fed
drain zero f = none
drain (suc fuel) f = elim (try_decode_frame f.parser) [
  | none ↦ none
  | some (need_more, p) ↦ some (record f { parser = p })
  | some (other_frame, p) ↦ drain fuel (record f { decoded = f.decoded + 0; parser = p })
  | some (push_frame s, p) ↦
      drain fuel (record { decoded = f.decoded + 1; calls = f.calls ++ (s ∷ []); parser = p })
]

-- One byte: each frame that it completes leaves fewer bytes, so `count + 1` rounds are enough.
unfoldable pub feed_byte : Fed → ℕ → Option Fed
feed_byte f b = let p = ring_push f.parser b in drain (suc p.count) (record f { parser = p })

unfoldable pub feed_bytes : Fed → List ℕ → Option Fed
feed_bytes f [] = some f
feed_bytes f (b ∷ bs) = elim (feed_byte f b) [ none ↦ none | some f' ↦ feed_bytes f' bs ]

-- `rcm_feed`: a null parser or null data gives 0 and no call.
unfoldable pub feed : Option Parser → Option (List ℕ) → Option (ℕ × List RcState × Option Parser)
feed none bytes = some (0, [], none)
feed (some p) none = some (0, [], some p)
feed (some p) (some bytes) =
    elim (feed_bytes (record { decoded = 0; calls = []; parser = p }) bytes) [
      | none ↦ none
      | some f ↦ some (f.decoded, f.calls, some f.parser)
    ]
