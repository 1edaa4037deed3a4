-- ===== src/Packet/Noise.antt =====
-- What the parser makes of a stream in which push packets stand among other packets and bytes that
-- belong to none.
use rc_monitor.Base.{
  ℕ, ◌+◌, ◌<◌, ◌≤◌, ◌≡◌, refl, sym, ap, ◌∙◌, subst, arith, inl, inr, List, [], ◌∷◌, ◌++◌, length,
  some, IsBytes, All, All-append,
}
use rc_monitor.State.{RcState}
use rc_monitor.Payload.{decode_payload}
use rc_monitor.Scan.{Scans, stop, pass, front, skip}
use rc_monitor.Scan.Laws.{Scans-functional, front_empty}
use rc_monitor.Parser.{Parser, deliver, other_frame, feed}
use rc_monitor.Parser.Ring.{contents}
use rc_monitor.Parser.Deliver.{Carries, deliver_lem}
use rc_monitor.Parser.Decode.{
  IsIdle, delivered, outcomes, states_of, delivered_push, delivered_other,
}
use rc_monitor.Parser.Feed.{feed_lem}
use rc_monitor.Packet.Layout.{packet, length-packet, IsBytes-packet}
use rc_monitor.Packet.RoundTrip.{Message, Scans-packet}
use rc_monitor.Packet.Delivery.{IsPush, deliver-packet, packet-IsBytes}
use rc_monitor.Packet.Recover.{NotSof}

-- A message whose packet carries the push command, with room for its payload, at none of the offsets
-- that the parser looks at: an answer to a request, or a packet for another device.
pub record IsQuiet (m : Message) : Type 0 where
  pub set : m.header.cmd_set < 256
  pub id : m.header.cmd_id < 256
  pub short : length m.payload ≤ 1010
  pub bytes : IsBytes m.payload
  pub carries_none : (off : ℕ) → ¬ (Carries (packet m.header m.payload) (13 + length m.payload) off)

-- What may stand on the wire: bytes of no packet, a push message, or another one.
pub data Piece : Type 0 where
  noise : List ℕ → Piece
  push quiet : Message → Piece

abbrev pub IsClean : Piece → Type 0
IsClean (noise bs) = All NotSof bs × IsBytes bs
IsClean (push m) = IsPush m
IsClean (quiet m) = IsQuiet m

-- The bytes of a piece, its frames, and the states that it carries.
unfoldable pub wire : List Piece → List ℕ
wire [] = []
wire (noise bs ∷ ps) = bs ++ wire ps
wire (push m ∷ ps) = packet m.header m.payload ++ wire ps
wire (quiet m ∷ ps) = packet m.header m.payload ++ wire ps

unfoldable pub frames : List Piece → List (List ℕ)
frames [] = []
frames (noise bs ∷ ps) = frames ps
frames (push m ∷ ps) = packet m.header m.payload ∷ frames ps
frames (quiet m ∷ ps) = packet m.header m.payload ∷ frames ps

unfoldable pub carried : List Piece → List RcState
carried [] = []
carried (noise bs ∷ ps) = carried ps
carried (push m ∷ ps) = decode_payload m.payload ∷ carried ps
carried (quiet m ∷ ps) = carried ps

-- A message with a payload shorter than 16 bytes is quiet: the push command leaves no room.
pub short-IsQuiet :
    (m : Message)
    → m.header.cmd_set < 256
    → m.header.cmd_id < 256
    → length m.payload < 16
    → IsBytes m.payload
    → IsQuiet m
short-IsQuiet m set id short bytes = record {
  set = set;
  id = id;
  short = omega arith;
  bytes = bytes;
  carries_none = λ off c. absurd (omega (arith, c.room, c.from_8));
}

deliver-quiet :
    (m : Message)
    → IsQuiet m
    → deliver (packet m.header m.payload) (length (packet m.header m.payload)) ≡ other_frame
deliver-quiet m v =
    rw (length-packet m.header m.payload)
      (elim (deliver_lem (packet m.header m.payload) (13 + length m.payload)) [
        | inl e ↦ e
        | inr (off, c, e) ↦ absurd (v.carries_none off c)
      ])

delivered-frames : (ps : List Piece) → All IsClean ps → delivered (frames ps) ≡ carried ps
unfolding frames carried
delivered-frames [] v = unfold delivered outcomes states_of in refl
delivered-frames (noise bs ∷ ps) v = delivered-frames ps v.1
delivered-frames (push m ∷ ps) v =
    delivered_push (packet m.header m.payload) (frames ps) (decode_payload m.payload)
      (sym (deliver-packet m v.0))
    ∙ ap (λ l. decode_payload m.payload ∷ l) (delivered-frames ps v.1)
delivered-frames (quiet m ∷ ps) v =
    delivered_other (packet m.header m.payload) (frames ps) (sym (deliver-quiet m v.0))
    ∙ delivered-frames ps v.1

front-noise : (b : ℕ) (ys : List ℕ) → NotSof b → front (b ∷ ys) ≡ skip 1
unfolding front
front-noise b ys h = ground (arith, h)

Scans-noise :
    (bs ys : List ℕ) {fs : List (List ℕ)} {r : List ℕ}
    → All NotSof bs
    → Scans ys fs r
    → Scans (bs ++ ys) fs r
Scans-noise [] ys v t = t
Scans-noise (b ∷ bs) ys v t = pass 1 (front-noise b (bs ++ ys) v.0) (Scans-noise bs ys v.1 t)

Scans-wire : (ps : List Piece) → All IsClean ps → Scans (wire ps) (frames ps) []
unfolding wire frames
Scans-wire [] v = stop (front_empty [] refl)
Scans-wire (noise bs ∷ ps) v = Scans-noise bs (wire ps) v.0.0 (Scans-wire ps v.1)
Scans-wire (push m ∷ ps) v = Scans-packet m (wire ps) v.0.short (Scans-wire ps v.1)
Scans-wire (quiet m ∷ ps) v = Scans-packet m (wire ps) v.0.short (Scans-wire ps v.1)

wire-IsBytes : (ps : List Piece) → All IsClean ps → IsBytes (wire ps)
unfolding wire
wire-IsBytes [] v = tt
wire-IsBytes (noise bs ∷ ps) v = All-append (λ b. b < 256) bs (wire ps) v.0.1 (wire-IsBytes ps v.1)
wire-IsBytes (push m ∷ ps) v =
    All-append (λ b. b < 256) (packet m.header m.payload) (wire ps) (packet-IsBytes m v.0)
      (wire-IsBytes ps v.1)
wire-IsBytes (quiet m ∷ ps) v =
    All-append (λ b. b < 256) (packet m.header m.payload) (wire ps)
      (IsBytes-packet m.header m.payload v.0.set v.0.id v.0.bytes) (wire-IsBytes ps v.1)

-- Fed any sequence of packets of push messages with payloads of 17 to 1010 bytes, packets of up to
-- 1023 bytes that carry the push command at none of the offsets the parser looks at, and runs of
-- bytes none of which is 0x55, a parser that holds no byte calls the callback once for each push
-- message, in order, with its payload decoded. It returns their number, and is left with no byte.
pub feed-noisy :
    (p : Parser) (ps : List Piece)
    → IsIdle p
    → contents p ≡ []
    → All IsClean ps
    → (q : Parser) × (feed (some p) (some (wire ps))
        ≡ some (length (carried ps), carried ps, some q))
      × (contents q ≡ [])
      × IsIdle q
feed-noisy p ps idle empty v =
    let (fs, q, e, t, w, lt) = feed_lem p (wire ps) idle (wire-IsBytes ps v) in
    let same =
      Scans-functional (subst (λ l. Scans (l ++ wire ps) fs (contents q)) empty t)
        (Scans-wire ps v) in
    let calls : delivered fs ≡ carried ps = ap delivered same.0 ∙ delivered-frames ps v in
    (q, e ∙ ap (λ l. some (length l, l, some q)) calls, same.1, w)
