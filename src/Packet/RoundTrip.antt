-- ===== src/Packet/RoundTrip.antt =====
-- The parser finds every packet that the builder writes, up to 1023 bytes.
use native.Mathlib.Nat.{add-zero}
use rc_monitor.Base.{ℕ, ◌+◌, ◌-◌, ◌/◌, ◌%◌, ◌<◌, ◌≤◌, ◌≡◌, refl, sym, ap, ◌∙◌, subst, arith}
use rc_monitor.Base.{
  true, List, [], ◌∷◌, ◌++◌, take, drop, length, get_or, length-append, take-append, drop-append,
  get_or-append_right, All, ◌==◌, ==_iff,
}
use rc_monitor.Crc.{duml_crc8, duml_crc16}
use rc_monitor.Crc.Bounds.{duml_crc16-lt}
use rc_monitor.Scan.{announced, header_ok, frame_ok, front, frame, Scans, stop, found, word_at}
use rc_monitor.Scan.Laws.{front_empty, frame_ok-append}
use rc_monitor.Parser.Valid.{HeaderAt, HeaderAt-append, front-good}
use rc_monitor.Packet.{Header}
use rc_monitor.Packet.Buffer.{word_bytes}
use rc_monitor.Packet.Layout.{prefix, header_bytes, length-header_bytes, packet, length-packet}

-- A 16-bit value is the word that its two bytes make.
word_of_bytes :
    (xs ys : List ℕ) (v : ℕ) → v < 65536 → word_at (xs ++ (word_bytes v ++ ys)) (length xs) ≡ v
word_of_bytes xs ys v h = omega (arith, low, high)
  where
    low : get_or (xs ++ (word_bytes v ++ ys)) (length xs) 0 ≡ v % 256
    low =
        ap (λ k. get_or (xs ++ (word_bytes v ++ ys)) k 0) (sym (add-zero (length xs)))
        ∙ get_or-append_right xs (word_bytes v ++ ys) 0 0

    high : get_or (xs ++ (word_bytes v ++ ys)) (length xs + 1) 0 ≡ v / 256 % 256
    high = get_or-append_right xs (word_bytes v ++ ys) 1 0

module _ (h : Header) (payload : List ℕ) where
  abbrev total : ℕ
  total = 13 + length payload

  abbrev body : List ℕ
  body = header_bytes h total ++ payload

  length-body : length body ≡ 13 + length payload - 2
  length-body =
      omega (arith, length-append (header_bytes h total) payload, length-header_bytes h total)

  -- The length in the header is the packet's, as long as ten bits hold it.
  announced-packet : length payload ≤ 1010 → announced (packet h payload) ≡ 13 + length payload
  unfolding announced packet header_bytes
  announced-packet small = omega arith

  header_checksum : (duml_crc8 (take 3 (packet h payload)) == get_or (packet h payload) 3 0) ≡ true
  unfolding packet header_bytes prefix
  header_checksum = (==_iff _ _).1 refl

  header_ok-packet : length payload ≤ 1010 → header_ok (packet h payload) ≡ true
  unfolding header_ok
  header_ok-packet small = rw (header_checksum, announced-packet small) (ground arith)

  pub frame_ok-packet : frame_ok (packet h payload) (13 + length payload) ≡ true
  unfolding frame_ok packet
  frame_ok-packet = (==_iff _ _).1 (
      ap duml_crc16 (
        ap (λ k. take k (body ++ word_bytes crc)) (sym length-body)
        ∙ take-append body (word_bytes crc))
      ∙ sym (word_of_bytes body [] crc (duml_crc16-lt body))
      ∙ ap (word_at (body ++ word_bytes crc)) length-body)
    where
      crc : ℕ
      crc = duml_crc16 body

  pub packet-HeaderAt : length payload ≤ 1010 → HeaderAt (packet h payload) (13 + length payload)
  packet-HeaderAt small = record {
    enough = omega (arith, length-packet h payload);
    sof = unfold packet header_bytes in refl;
    good = header_ok-packet small;
    announces = sym (announced-packet small);
  }

  -- A packet at the front of the stream is found, whatever follows it.
  pub front-packet :
      (ys : List ℕ)
      → length payload ≤ 1010
      → front (packet h payload ++ ys) ≡ frame (13 + length payload)
  front-packet ys small =
      front-good (packet h payload ++ ys) (13 + length payload)
        (HeaderAt-append (packet h payload) ys (13 + length payload) (packet-HeaderAt small))
        (omega (arith, length-append (packet h payload) ys, length-packet h payload))
        (frame_ok-append (packet h payload) ys (13 + length payload) (omega arith)
            (omega (arith, length-packet h payload))
          ∙ frame_ok-packet)

-- What `rcm_build_packet` was asked for: a header and a payload.
pub record Message : Type 0 where
  pub header : Header
  pub payload : List ℕ

-- The stream of packets for a list of messages.
unfoldable pub stream : List Message → List ℕ
stream [] = []
stream (m ∷ ms) = packet m.header m.payload ++ stream ms

unfoldable pub packets : List Message → List (List ℕ)
packets [] = []
packets (m ∷ ms) = packet m.header m.payload ∷ packets ms

abbrev pub Short : Message → Type 0
Short m = length m.payload ≤ 1010

-- A packet before a stream is its first frame.
pub Scans-packet :
    (m : Message) (ys : List ℕ) {fs : List (List ℕ)} {r : List ℕ}
    → length m.payload ≤ 1010
    → Scans ys fs r
    → Scans (packet m.header m.payload ++ ys) (packet m.header m.payload ∷ fs) r
Scans-packet m ys {fs} {r} short t =
    subst (λ f. Scans (p ++ ys) (f ∷ fs) r) cut
      (found (13 + length m.payload) (front-packet m.header m.payload ys short)
        (subst (λ l. Scans l fs r) (sym rest) t))
  where
    p : List ℕ
    p = packet m.header m.payload

    cut : take (13 + length m.payload) (p ++ ys) ≡ p
    cut = ap (λ k. take k (p ++ ys)) (sym (length-packet m.header m.payload)) ∙ take-append p ys

    rest : drop (13 + length m.payload) (p ++ ys) ≡ ys
    rest = ap (λ k. drop k (p ++ ys)) (sym (length-packet m.header m.payload)) ∙ drop-append p ys

-- A stream of packets divides into those packets.
pub Scans-stream : (ms : List Message) → All Short ms → Scans (stream ms) (packets ms) []
unfolding stream packets
Scans-stream [] short = stop (front_empty [] refl)
Scans-stream (m ∷ ms) short = Scans-packet m (stream ms) short.0 (Scans-stream ms short.1)
