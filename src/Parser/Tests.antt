-- ===== src/Parser/Tests.antt =====
-- A new parser that is fed a push packet.
use rc_monitor.Payload.{decode_payload, parse_payload}
use rc_monitor.Parser.{deliver, standard_payload, is_rc_push, parsed, push_frame}
use rc_monitor.Parser.Deliver.{Leads, deliver_lem}
use rc_monitor.Base.{refl, ℕ, ◌+◌, ◌<◌, ◌≡◌, List, [], ◌∷◌, ◌++◌, length, take, drop, some, arith}
use rc_monitor.State.{RcState}
use rc_monitor.Scan.{Scans}
use rc_monitor.Parser.{Parser, Ret, ring_push, fresh, reset, try_decode_frame, feed}
use rc_monitor.Parser.Ring.{contents}
use rc_monitor.Parser.Valid.{IsValid, fresh-IsValid}
use rc_monitor.Parser.Decode.{IsIdle, Decoded, delivered, try_decode_frame_lem}
use rc_monitor.Parser.Feed.{feed-reset, fresh-IsIdle, ring_push-IsValid, feed_lem, feed_chunks}

abbrev push_bytes : List ℕ
push_bytes =
    85 ∷ 30 ∷ 4 ∷ 138 ∷ 6 ∷ 10 ∷ 1 ∷ 0 ∷ 0 ∷ 6 ∷ 5 ∷ 112 ∷ 17 ∷ 1 ∷ 0 ∷ 74 ∷ 148 ∷ 6 ∷ 0 ∷ 4 ∷ 0 ∷ 4
    ∷ 108 ∷ 1 ∷ 0 ∷ 4 ∷ 0 ∷ 4 ∷ 215 ∷ 19 ∷ []

-- One byte in the ring.
abbrev one_byte : Parser
one_byte = ring_push fresh 0x55

one_byte-IsValid : IsValid one_byte
one_byte-IsValid =
    ring_push-IsValid fresh 0x55 (omega arith) fresh-IsValid.0 (unfold fresh in omega arith)

one_byte-count : one_byte.count ≡ 1
unfolding fresh ring_push
one_byte-count = refl

feed_lem_example :
    (fs : List (List ℕ)) × (q : Parser) × (feed (some fresh) (some push_bytes)
      ≡ some (length (delivered fs), delivered fs, some q))
    × Scans (contents fresh ++ push_bytes) fs (contents q)
    × IsIdle q
    × (q.count < 1024)
feed_lem_example = feed_lem fresh push_bytes fresh-IsIdle (omega arith)

feed_chunks_example :
    (n : ℕ) × (m : ℕ) × (cs : List RcState) × (ds : List RcState) × (q : Parser) × (r : Parser)
    × (s : Parser) × (feed (some fresh) (some (take 5 push_bytes)) ≡ some (n, cs, some q))
    × (feed (some q) (some (drop 5 push_bytes)) ≡ some (m, ds, some r))
    × (feed (some fresh) (some (take 5 push_bytes ++ drop 5 push_bytes))
        ≡ some (n + m, cs ++ ds, some s))
    × (contents s ≡ contents r)
feed_chunks_example =
    feed_chunks fresh (take 5 push_bytes) (drop 5 push_bytes) fresh-IsIdle (omega arith)
      (omega arith)

try_decode_frame_lem_example :
    (r : Ret) × (p : Parser) × (try_decode_frame one_byte ≡ some (r, p))
    × Decoded (contents one_byte) r p
try_decode_frame_lem_example = try_decode_frame_lem one_byte one_byte-IsValid

feed-reset_example :
    (p2 : Parser) × (n : ℕ) × (cs : List RcState) × (r : Parser) × (s : Parser) × (reset
        (some one_byte)
      ≡ some p2)
    × (feed (some p2) (some push_bytes) ≡ some (n, cs, some r))
    × (feed (some fresh) (some push_bytes) ≡ some (n, cs, some s))
    × (contents r ≡ contents s)
feed-reset_example = feed-reset one_byte push_bytes one_byte-IsValid.ring_ok (omega arith)

-- The push packet carries its command at offset 9.
deliver_lem_example : Leads push_bytes 30 (deliver push_bytes 30)
deliver_lem_example = deliver_lem push_bytes 30

push_delivered : deliver push_bytes 30 ≡ push_frame (decode_payload (drop 11 push_bytes))
unfolding deliver standard_payload is_rc_push parsed parse_payload
push_delivered = refl
