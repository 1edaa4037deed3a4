-- ===== src/Packet/Delivery.antt =====
-- What the parser makes of the push packets that the builder writes.
use rc_monitor.Base.{ℕ, ◌+◌, ◌-◌, ◌<◌, ◌≤◌, ◌≡◌, refl, sym, ap, ◌∙◌, subst, arith}
use rc_monitor.Base.{
  true, List, [], ◌∷◌, ◌++◌, map, drop, length, take-append_left, some, IsBytes, All, All-append,
  leb,
}
use rc_monitor.State.{RcState, duml_cmd_set_rc, duml_cmd_rc_push}
use rc_monitor.Payload.{decode_payload}
use rc_monitor.Payload.Ranges.{parse_payload_ok, decode_payload_17}
use rc_monitor.Scan.{Scans}
use rc_monitor.Scan.Laws.{Scans-functional}
use rc_monitor.Parser.{
  Parser, push_frame, deliver, standard_payload, is_rc_push, parsed, blank, feed,
}
use rc_monitor.Parser.Ring.{contents}
use rc_monitor.Parser.Decode.{IsIdle, delivered, outcomes, states_of, delivered_push}
use rc_monitor.Parser.Feed.{feed_lem}
use rc_monitor.Packet.Layout.{header_bytes, packet, length-packet, IsBytes-packet}
use rc_monitor.Packet.RoundTrip.{Message, stream, packets, Short, Scans-stream}

-- A message that carries the controller's state.
pub record IsPush (m : Message) : Type 0 where
  pub set : m.header.cmd_set ≡ duml_cmd_set_rc
  pub id : m.header.cmd_id ≡ duml_cmd_rc_push
  pub enough : 17 ≤ length m.payload
  pub short : length m.payload ≤ 1010
  pub bytes : IsBytes m.payload

module _ (m : Message) (v : IsPush m) where
  abbrev pub frame_of : List ℕ
  frame_of = packet m.header m.payload

  is_rc_push_packet : is_rc_push frame_of 9 ≡ true
  unfolding is_rc_push packet header_bytes
  is_rc_push_packet = ground (arith, v.set, v.id)

  payload_of_packet : decode_payload (drop 11 frame_of) ≡ decode_payload m.payload
  unfolding packet header_bytes
  payload_of_packet = decode_payload_17 _ m.payload (take-append_left 17 m.payload _ v.enough)

  standard_payload-packet :
      standard_payload frame_of (length frame_of) ≡ some (decode_payload m.payload)
  unfolding standard_payload parsed
  standard_payload-packet =
      rw
        (
          is_rc_push_packet,
          ≤-leb 13 (length frame_of) (omega (arith, size)),
          ≤-leb 17 (length frame_of - 13) (omega (arith, size, v.enough)),
        )
        (rw
          (parse_payload_ok (drop 11 frame_of) (length frame_of - 13) blank
            (omega (arith, size, v.enough)))
          (ap some payload_of_packet))
    where
      size : length frame_of ≡ 13 + length m.payload
      size = length-packet m.header m.payload

      ≤-leb : (a b : ℕ) → a ≤ b → leb a b ≡ true
      ≤-leb a b h = ground arith

  pub deliver-packet : deliver frame_of (length frame_of) ≡ push_frame (decode_payload m.payload)
  unfolding deliver
  deliver-packet = rw (standard_payload-packet, deliver) refl

  pub packet-IsBytes : IsBytes frame_of
  packet-IsBytes =
      IsBytes-packet m.header m.payload (omega (arith, v.set)) (omega (arith, v.id)) v.bytes

-- The payloads of a list of messages, decoded.
unfoldable pub states : List Message → List RcState
states ms = map (λ m. decode_payload m.payload) ms

delivered-packets : (ms : List Message) → All IsPush ms → delivered (packets ms) ≡ states ms
unfolding packets states
delivered-packets [] v = unfold delivered outcomes states_of in refl
delivered-packets (m ∷ ms) v =
    delivered_push (packet m.header m.payload) (packets ms) (decode_payload m.payload)
      (sym (deliver-packet m v.0))
    ∙ ap (λ l. decode_payload m.payload ∷ l) (delivered-packets ms v.1)

pub stream-IsBytes : (ms : List Message) → All IsPush ms → IsBytes (stream ms)
unfolding stream
stream-IsBytes [] v = tt
stream-IsBytes (m ∷ ms) v =
    All-append (λ b. b < 256) (packet m.header m.payload) (stream ms) (packet-IsBytes m v.0)
      (stream-IsBytes ms v.1)

All-Short : (ms : List Message) → All IsPush ms → All Short ms
All-Short [] v = tt
All-Short (m ∷ ms) v = (v.0.short, All-Short ms v.1)

-- Fed the packets that the builder writes for a list of push messages, of payloads of 17 to 1010
-- bytes, a parser that holds no byte calls the callback once for each, in order, with its payload
-- decoded. It returns their number, and is left with no byte.
pub feed-stream :
    (p : Parser) (ms : List Message)
    → IsIdle p
    → contents p ≡ []
    → All IsPush ms
    → (q : Parser) × (feed (some p) (some (stream ms))
        ≡ some (length (states ms), states ms, some q))
      × (contents q ≡ [])
      × IsIdle q
feed-stream p ms idle empty v =
    let (fs, q, e, t, w, lt) = feed_lem p (stream ms) idle (stream-IsBytes ms v) in
    let same =
      Scans-functional (subst (λ l. Scans (l ++ stream ms) fs (contents q)) empty t)
        (Scans-stream ms (All-Short ms v)) in
    let calls : delivered fs ≡ states ms = ap delivered same.0 ∙ delivered-packets ms v in
    (q, e ∙ ap (λ l. some (length l, l, some q)) calls, same.1, w)
