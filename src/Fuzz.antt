-- ===== src/Fuzz.antt =====
-- test/fuzz_feed.c, test/fuzz_build_packet.c and test/fuzz_payload.c: what a fuzzer runs on each of
-- its inputs. The parser of the first two, `g_parser`, lives from input to input.
pub mod Run
pub mod Feed
pub mod Build
mod Tests
use rc_monitor.Base.{
  ℕ, zero, suc, ◌+◌, ◌-◌, ◌%◌, ◌^◌, bit_and, bit_or, Bool, true, List, [], ◌∷◌, ◌++◌, take, drop,
  length, get_or, Option, none, some, ltb, if◌then◌else◌,
}
use rc_monitor.Base.Int.{ℤ, pos, negsuc}
use rc_monitor.Base.Word.{u16, shl, shr}
use rc_monitor.State.{RcState, duml_max_frame_len, duml_min_frame_len}
use rc_monitor.Payload.{parse_payload}
use rc_monitor.Parser.{Parser, create, reset, feed, parsed}
use rc_monitor.Packet.{Header, build_packet}

-- `LLVMFuzzerInitialize`: whether `calloc` succeeds.
unfoldable pub initialize : Bool → Option Parser
initialize allocated = create true allocated

-- The `chunk` at `offset`: 1 for the last byte, else what the byte there says, up to the end.
unfoldable pub chunk_at : List ℕ → ℕ → ℕ
chunk_at input offset =
    if ltb (offset + 1) (length input)
    then (let chunk = get_or input offset 0 % 64 + 1 in
        if ltb (length input - offset) chunk then length input - offset else chunk)
    else 1

-- What a call of `rcm_feed` made of the parser, then the calls and the parser of what follows.
unfoldable pub and_then :
    Option (ℕ × List RcState × Option Parser)
    → (Option Parser → Option (List RcState × Option Parser))
    → Option (List RcState × Option Parser)
and_then none rest = none
and_then (some (n, calls, p)) rest = elim (rest p) [
  | none ↦ none
  | some (more, q) ↦ some (calls ++ more, q)
]

-- `while (offset < size)` with fuel: the calls of the callback.
unfoldable pub feed_from : ℕ → List ℕ → ℕ → Option Parser → Option (List RcState × Option Parser)
feed_from zero input offset p = none
feed_from (suc fuel) input offset p =
    let rest =
      and_then (feed p (some (take (chunk_at input offset) (drop offset input))))
        (feed_from fuel input (offset + chunk_at input offset)) in
    if ltb offset (length input) then rest else some ([], p)

-- `LLVMFuzzerTestOneInput` of fuzz_feed.c. Each round takes a byte, so `size + 1` rounds are enough.
unfoldable pub feed_input : List ℕ → Option Parser → Option (List RcState × Option Parser)
feed_input input p = elim (feed_from (suc (length input)) input 0 p) [
  | none ↦ none
  | some (calls, q) ↦ some (calls, reset q)
]

-- The arguments that fuzz_build_packet.c takes from an input.
unfoldable pub header_of : List ℕ → Header
header_of input = record {
  sender_type = bit_and (get_or input 0 0) 0x1f;
  sender_index = 0;
  receiver_type = bit_and (get_or input 1 0) 0x1f;
  receiver_index = 0;
  seq_num = u16 (bit_or (get_or input 2 0) (shl (get_or input 3 0) 8));
  pack_type = bit_and (get_or input 4 0) 0x0f;
  ack_type = bit_and (shr (get_or input 4 0) 4) 0x0f;
  encrypt_type = bit_and (get_or input 5 0) 0x07;
  cmd_set = get_or input 6 0;
  cmd_id = get_or input 7 0;
}

-- `payload` and `payload_len`.
unfoldable pub payload_of : List ℕ → Option (List ℕ)
payload_of input = if ltb 8 (length input) then some (drop 8 input) else none

unfoldable pub payload_len_of : List ℕ → ℕ
payload_len_of input =
    let n = if ltb 8 (length input) then length input - 8 else 0 in
    if ltb (duml_max_frame_len - duml_min_frame_len) n
    then duml_max_frame_len - duml_min_frame_len
    else n

-- `if (pkt_len > 0) rcm_feed(g_parser, out, (size_t)pkt_len);`
unfoldable pub feed_built :
    Option Parser → ℤ × Option (List ℕ) → Option (ℕ × List RcState × Option Parser)
feed_built p (pos zero, out) = some (0, [], p)
feed_built p (pos (suc n), none) = some (0, [], p)
feed_built p (pos (suc n), some out) = feed p (some (take (suc n) out))
feed_built p (negsuc n, out) = some (0, [], p)

-- `LLVMFuzzerTestOneInput` of fuzz_build_packet.c, with what the array `out` holds at first.
unfoldable pub build_input : List ℕ → List ℕ → Option Parser → Option (List RcState × Option Parser)
build_input stack input p =
    let built =
      build_packet (some stack) duml_max_frame_len (header_of input) (payload_of input)
        (payload_len_of input) in
    if ltb (length input) 8
    then some ([], p)
    else elim (feed_built p built) [ none ↦ none | some (n, calls, q) ↦ some (calls, reset q) ]

-- The inputs of a run, one after the other: the calls that each led to, and the parser in the end.
unfoldable pub run_inputs :
    (List ℕ → Option Parser → Option (List RcState × Option Parser))
    → List (List ℕ)
    → Option Parser
    → Option (List (List RcState) × Option Parser)
run_inputs test [] p = some ([], p)
run_inputs test (i ∷ is) p = elim (test i p) [
  | none ↦ none
  | some (calls, q) ↦ elim (run_inputs test is q) [
    | none ↦ none
    | some (more, r) ↦ some (calls ∷ more, r)
  ]
]

-- `LLVMFuzzerTestOneInput` of fuzz_payload.c: the state whose fields it touches, if it does.
unfoldable pub payload_input : RcState → List ℕ → Option RcState
payload_input stack input = parsed (parse_payload (some input) (length input) (some stack))
