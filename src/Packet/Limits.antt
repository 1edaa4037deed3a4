-- ===== src/Packet/Limits.antt =====
-- The two ends of what `rcm_build_packet` writes: the two requests of the library, and the packets
-- that are too long for the ten bits of the length field.
use rc_monitor.Base.{ℕ, ◌+◌, ◌%◌, ◌≤◌, ◌≡◌, arith}
use rc_monitor.Base.{List, [], ◌∷◌, ◌++◌, drop, length, some}
use rc_monitor.Base.Int.{pos}
use rc_monitor.Scan.{announced}
use rc_monitor.Scan.Laws.{announced-append}
use rc_monitor.Packet.{
  Header, build_packet, build_enable_cmd, build_channel_request, request_header, duml_cmd_rc_enable,
  duml_cmd_rc_channel,
}
use rc_monitor.Packet.Layout.{
  packet, header_bytes, length-packet, Fits, build_packet_lem, write_packet_lem,
}

-- The length that a packet's header announces is its own modulo 1024.
announced_mod :
    (h : Header) (payload : List ℕ) → announced (packet h payload) ≡ (13 + length payload) % 1024
unfolding announced packet header_bytes
announced_mod h payload = omega arith

-- For a payload of 1011 to 1387 bytes and an array with room for it, `rcm_build_packet` succeeds, and
-- the header of what it writes announces 1024 bytes less than it returns.
pub build_packet_truncates :
    (out : List ℕ) (out_size : ℕ) (h : Header) (payload : List ℕ)
    → Fits out out_size (length payload)
    → 1011 ≤ length payload
    → (written : List ℕ) × (build_packet (some out) out_size h (some payload) (length payload)
        ≡ (pos (13 + length payload), some written))
      × (announced written + 1024 ≡ 13 + length payload)
build_packet_truncates out out_size h payload fits long = (
  packet h payload ++ drop (13 + length payload) out,
  build_packet_lem out out_size h payload fits,
  omega (
    arith,
    announced_mod h payload,
    announced-append (packet h payload) (drop (13 + length payload) out)
        (omega (arith, length-packet h payload)),
  ),
)

-- With room for 14 bytes, `rcm_build_enable_cmd` writes the packet from the PC to the controller with
-- the command that enables it and the payload 1, and returns 14. With room for 13,
-- `rcm_build_channel_request` writes the one that asks for the channels, which has no payload, and
-- returns 13. What stands behind the packet in the array stays as it was.
pub request_lem :
    (out : List ℕ) (out_size seq : ℕ)
    → 14 ≤ out_size
    → out_size ≤ length out
    → (build_enable_cmd (some out) out_size seq
        ≡ (pos 14, some (packet (request_header seq duml_cmd_rc_enable) (1 ∷ []) ++ drop 14 out)))
      × (build_channel_request (some out) out_size seq
          ≡ (pos 13, some (packet (request_header seq duml_cmd_rc_channel) [] ++ drop 13 out)))
unfolding build_enable_cmd build_channel_request
request_lem out out_size seq room le = (
  build_packet_lem out out_size (request_header seq duml_cmd_rc_enable) (1 ∷ [])
      (room, (omega arith), le),
  unfold build_packet in
      ground
        (arith, write_packet_lem out (request_header seq duml_cmd_rc_channel) [] (omega arith)),
)
