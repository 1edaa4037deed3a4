-- ===== src/Packet/Tests.antt =====
-- The builder on a push packet and on the two requests.
use rc_monitor.Base.{
  take, ℕ, zero, ◌+◌, ◌<◌, ◌≡◌, inl, inr, List, [], ◌∷◌, ◌++◌, length, replicate, length-replicate,
  drop, some, arith, refl, All, All-replicate,
}
use rc_monitor.Base.Int.{pos, negsuc}
use rc_monitor.State.{RcState, duml_cmd_rc_push}
use rc_monitor.Scan.{announced}
use rc_monitor.Parser.{Parser, fresh, feed}
use rc_monitor.Parser.Ring.{contents}
use rc_monitor.Parser.Valid.{fresh-IsValid}
use rc_monitor.Parser.Decode.{IsIdle}
use rc_monitor.Parser.Feed.{fresh-IsIdle}
use rc_monitor.Packet.{build_packet, request_header, duml_cmd_rc_enable}
use rc_monitor.Packet.Layout.{packet, header_bytes, build_packet_lem, build_packet_refuses}
use rc_monitor.Packet.RoundTrip.{Message, stream}
use rc_monitor.Packet.Delivery.{IsPush, states}
use rc_monitor.Packet.Noise.{
  Piece, IsQuiet, noise, push, quiet, IsClean, wire, carried, short-IsQuiet, feed-noisy,
}
use rc_monitor.Packet.Loss.{feed-changed_packet}
use rc_monitor.Packet.Limits.{build_packet_truncates}
use rc_monitor.Packet.Recover.{NotSof, feed-silence}
use rc_monitor.State.{RcState}

abbrev push_message : Message
push_message = record {
  header = request_header 1 duml_cmd_rc_push;
  payload = 0x70 ∷ 0x11 ∷ 1 ∷ 0 ∷ 0x4a ∷ 0x94 ∷ 6 ∷ 0 ∷ 4 ∷ 0 ∷ 4 ∷ 0x6c ∷ 1 ∷ 0 ∷ 4 ∷ 0 ∷ 4 ∷ [];
}

push_message-IsPush : IsPush push_message
unfolding request_header
push_message-IsPush = record {
  set = refl;
  id = refl;
  enough = omega arith;
  short = omega arith;
  bytes = omega arith;
}

abbrev two_messages : List Message
two_messages = push_message ∷ push_message ∷ []

-- An array of 16 bytes.
abbrev buffer : List ℕ
buffer = 9 ∷ 9 ∷ 9 ∷ 9 ∷ 9 ∷ 9 ∷ 9 ∷ 9 ∷ 9 ∷ 9 ∷ 9 ∷ 9 ∷ 9 ∷ 9 ∷ 9 ∷ 9 ∷ []

-- Noise, an acknowledgement, a push message, and noise and a push message again.
abbrev acknowledgement : Message
acknowledgement = record { header = request_header 9 duml_cmd_rc_enable; payload = 0 ∷ [] }

acknowledgement-IsQuiet : IsQuiet acknowledgement
unfolding request_header
acknowledgement-IsQuiet =
    short-IsQuiet acknowledgement (omega arith) (omega arith) (omega arith) (omega arith)

abbrev mixed : List Piece
mixed =
    noise (1 ∷ 2 ∷ [])
    ∷ quiet acknowledgement
    ∷ push push_message
    ∷ noise (0xff ∷ [])
    ∷ push push_message
    ∷ []

mixed-IsClean : All IsClean mixed
mixed-IsClean = (
  ((refl, (refl, tt)), omega arith),
  (
    acknowledgement-IsQuiet,
    (push_message-IsPush, (((refl, tt), omega arith), (push_message-IsPush, tt))),
  ),
)

feed-noisy_example :
    (q : Parser) × (feed (some fresh) (some (wire mixed))
      ≡ some (length (carried mixed), carried mixed, some q))
    × (contents q ≡ [])
    × IsIdle q
feed-noisy_example = feed-noisy fresh mixed fresh-IsIdle fresh-IsValid.1 mixed-IsClean

-- The command set of the push packet, changed.
abbrev before_set : List ℕ
before_set = take 9 (packet push_message.header push_message.payload)

abbrev behind_set : List ℕ
behind_set = drop 10 (packet push_message.header push_message.payload)

cut_at_set : packet push_message.header push_message.payload ≡ before_set ++ (6 ∷ behind_set)
unfolding packet header_bytes request_header
cut_at_set = refl

before_set-length : length before_set ≡ 9
unfolding packet header_bytes
before_set-length = refl

feed-changed_packet_example :
    (n : ℕ) × (cs : List RcState) × (q : Parser) × (r : Parser) × (feed
        (some fresh)
        (some ((before_set ++ (7 ∷ behind_set)) ++ (0x55 ∷ [])))
      ≡ some (n, cs, some q))
    × (feed (some fresh) (some (0x55 ∷ [])) ≡ some (n, cs, some r))
    × (contents q ≡ contents r)
feed-changed_packet_example =
    feed-changed_packet fresh push_message before_set 6 7 behind_set (0x55 ∷ []) fresh-IsIdle
      fresh-IsValid.1 cut_at_set push_message-IsPush (omega (arith, before_set-length))
      (omega arith) (omega arith) (omega arith)

build_packet_lem_example :
    build_packet (some buffer) 16 (request_header 1 duml_cmd_rc_enable) (some (1 ∷ [])) 1
    ≡ (pos 14, some (packet (request_header 1 duml_cmd_rc_enable) (1 ∷ []) ++ (9 ∷ 9 ∷ [])))
build_packet_lem_example =
    build_packet_lem buffer 16 (request_header 1 duml_cmd_rc_enable) (1 ∷ [])
      (omega arith, omega arith, omega arith)

build_packet_refuses_example :
    build_packet (some buffer) 13 (request_header 1 duml_cmd_rc_enable) (some (1 ∷ [])) 1
    ≡ (negsuc 0, some buffer)
build_packet_refuses_example =
    build_packet_refuses (some buffer) 13 (request_header 1 duml_cmd_rc_enable) (some (1 ∷ [])) 1
      (inr (inl (omega arith)))

-- A payload of 1011 bytes makes a packet of 1024.
unfoldable long_payload : List ℕ
long_payload = replicate 1011 0

unfoldable long_buffer : List ℕ
long_buffer = replicate 1024 0

long_payload-length : length long_payload ≡ 1011
unfolding long_payload
long_payload-length = length-replicate 1011 zero

long_buffer-length : length long_buffer ≡ 1024
unfolding long_buffer
long_buffer-length = length-replicate 1024 zero

build_packet_truncates_example :
    (written : List ℕ) × (build_packet
        (some long_buffer)
        1024
        (request_header 1 duml_cmd_rc_push)
        (some long_payload)
        (length long_payload)
      ≡ (pos (13 + length long_payload), some written))
    × (announced written + 1024 ≡ 13 + length long_payload)
build_packet_truncates_example =
    build_packet_truncates long_buffer 1024 (request_header 1 duml_cmd_rc_push) long_payload
      (
        omega (arith, long_payload-length),
        omega (arith, long_payload-length),
        omega (arith, long_buffer-length),
      )
      (omega (arith, long_payload-length))

-- The length of the silence that the parser needs.
unfoldable silence : List ℕ
silence = replicate 1023 0

feed-silence_example :
    (n : ℕ) × (cs : List RcState) × (q : Parser) × (r : Parser) × (feed (some fresh) (some silence)
      ≡ some (n, cs, some q))
    × (contents q ≡ [])
    × (feed (some q) (some (stream two_messages))
        ≡ some (length (states two_messages), states two_messages, some r))
unfolding silence
feed-silence_example =
    feed-silence fresh silence two_messages fresh-IsIdle
      (All-replicate (λ b. b < 256) 1023 zero (omega arith)) (All-replicate NotSof 1023 zero refl)
      (omega (arith, length-replicate 1023 zero)) (push_message-IsPush, (push_message-IsPush, tt))
