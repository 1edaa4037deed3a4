-- ===== src/Parser/Valid.antt =====
-- The invariant of the parser: the ring, and what state `READ_FRAME` remembers of the header.
use rc_monitor.Base.{
  ℕ, ◌+◌, ◌-◌, ◌<◌, ◌≤◌, ◌≡◌, refl, sym, ap, ap₂, ◌∙◌, arith, Bool, true, false, bit_or, bit_and,
}
use rc_monitor.Base.{
  List, [], ◌++◌, length-append, get_or-append_left, get_or, take, length, get_or-take, take-take,
  ltb, ◌==◌, not, ◌||◌, inl, inr, length-replicate, All-replicate, none, some, ◌⊎◌, ◌&&◌,
}
use rc_monitor.Base.Word.{u16, shl}
use rc_monitor.Base.Bits.{and_mask}
use rc_monitor.State.{duml_sof, duml_min_frame_len, duml_max_frame_len}
use rc_monitor.Crc.{duml_crc8, duml_crc16}
use rc_monitor.Payload.{byte_at}
use rc_monitor.Payload.Bytes.{le_word}
use rc_monitor.Scan.{
  announced, header_ok, frame_ok, word_at, body_front, front, incomplete, skip, frame,
}
use rc_monitor.Scan.Laws.{header_ok-min, header_ok-append, announced-append}
use rc_monitor.Parser.{
  Parser, scan_sof, read_frame, ring_copy, ring_peek, header_len, fresh, create, reset,
}
use rc_monitor.Parser.Ring.{
  IsRing, contents, ring_copy-contents, ring_peek-contents, IsBytes-contents,
}

-- `n` is the length that the good header at the front of `xs` announces.
pub record HeaderAt (xs : List ℕ) (n : ℕ) : Type 0 where
  pub enough : 4 ≤ length xs
  pub sof : get_or xs 0 0 ≡ duml_sof
  pub good : header_ok xs ≡ true
  pub announces : n ≡ announced xs

pub record IsValid (p : Parser) : Type 0 where
  pub ring_ok : IsRing p
  pub header : p.state ≡ read_frame → HeaderAt (contents p) p.frame_len

-- More bytes leave the header as it is.
pub HeaderAt-append : (xs ys : List ℕ) (n : ℕ) → HeaderAt xs n → HeaderAt (xs ++ ys) n
HeaderAt-append xs ys n h = record {
  enough = omega (arith, length-append xs ys, h.enough);
  sof = get_or-append_left xs ys 0 0 (omega (arith, h.enough)) ∙ h.sof;
  good = header_ok-append xs ys h.enough ∙ h.good;
  announces = h.announces ∙ sym (announced-append xs ys (omega (arith, h.enough)));
}

-- What the front of such a queue is.
module _ (xs : List ℕ) (n : ℕ) (h : HeaderAt xs n) where
  pub HeaderAt-min : 13 ≤ n
  HeaderAt-min = omega (arith, header_ok-min xs h.good)

  pub front-short : length xs < n → front xs ≡ incomplete
  unfolding front body_front
  front-short lt = ground arith

  pub front-good : n ≤ length xs → frame_ok xs n ≡ true → front xs ≡ frame n
  unfolding front body_front
  front-good le ok = ground (arith, ap (frame_ok xs) h.announces)

  pub front-bad : n ≤ length xs → frame_ok xs n ≡ false → front xs ≡ skip n
  unfolding front body_front
  front-bad le bad = ground (arith, ap (frame_ok xs) h.announces)

-- What the front of a queue without a good header is.
module _ (xs : List ℕ) where
  pub front_not_sof : 1 ≤ length xs → (get_or xs 0 0 == duml_sof) ≡ false → front xs ≡ skip 1
  unfolding front
  front_not_sof h e = ground arith

  pub front_few :
      1 ≤ length xs → (get_or xs 0 0 == duml_sof) ≡ true → length xs < 4 → front xs ≡ incomplete
  unfolding front
  front_few h e lt = ground arith

  pub front_bad_header :
      4 ≤ length xs → (get_or xs 0 0 == duml_sof) ≡ true → header_ok xs ≡ false → front xs ≡ skip 1
  unfolding front
  front_bad_header h e bad = ground arith

  pub header_ok_checksum : (duml_crc8 (take 3 xs) == get_or xs 3 0) ≡ false → header_ok xs ≡ false
  unfolding header_ok
  header_ok_checksum e = rw e

  -- The range test of the source, as the negation of the other half of a good header.
  pub header_ok_range :
      (n : ℕ)
      → n ≡ announced xs
      → (duml_crc8 (take 3 xs) == get_or xs 3 0) ≡ true
      → (ltb n duml_min_frame_len || ltb duml_max_frame_len n) ≡ not (header_ok xs)
  unfolding header_ok
  header_ok_range n a e = rw (e, ← a) (ground arith)

-- In state `SCAN_SOF` nothing is remembered.
pub scan_sof-IsValid : (p : Parser) → IsRing p → p.state ≡ scan_sof → IsValid p
scan_sof-IsValid p v e = record { ring_ok = v; header = λ r. cc }

module _ (p : Parser) (v : IsRing p) where
  byte_of_copy :
      (n i : ℕ) → n ≤ p.count → i < n → byte_at (ring_copy p 0 n) i ≡ get_or (contents p) i 0
  byte_of_copy n i h lt =
      ap (λ t. get_or t i 0) (ring_copy-contents p n h) ∙ get_or-take n (contents p) i 0 lt

  -- The two bytes at `i` of a copy, as the source joins them.
  word_of_copy :
      (n i : ℕ)
      → n ≤ p.count
      → i + 1 < n
      → bit_or (u16 (byte_at (ring_copy p 0 n) i)) (shl (u16 (byte_at (ring_copy p 0 n) (i + 1))) 8)
        ≡ word_at (contents p) i
  word_of_copy n i h lt =
      ap₂ (λ a b. bit_or (u16 a) (shl (u16 b) 8)) (byte_of_copy n i h (omega arith))
        (byte_of_copy n (i + 1) h lt)
      ∙ le_word (get_or (contents p) i 0) (get_or (contents p) (i + 1) 0) (IsBytes-contents p i v)
          (IsBytes-contents p (i + 1) v)

  -- The length that `try_decode_frame` reads from the header.
  pub announced_lem : 4 ≤ p.count → header_len p ≡ announced (contents p)
  unfolding announced header_len
  announced_lem h =
      ap (λ w. bit_and w 0x3ff) (word_of_copy 3 1 (omega arith) (omega arith))
      ∙ and_mask 10 (word_at (contents p) 1)

  -- Its test of the frame's checksum.
  pub frame_ok_lem :
      (n : ℕ)
      → 13 ≤ n
      → n ≤ p.count
      → let frame = ring_copy p 0 n in
        (duml_crc16 (take (n - 2) frame)
          == bit_or (u16 (byte_at frame (n - 2))) (shl (u16 (byte_at frame (n - 1))) 8))
        ≡ frame_ok (contents p) n
  unfolding frame_ok
  frame_ok_lem n h k =
      ap₂ (λ a b. duml_crc16 a == b)
        (ap (take (n - 2)) (ring_copy-contents p n k)
          ∙ take-take (n - 2) n (contents p) (omega arith))
        (ap (λ j. bit_or (u16 (byte_at frame (n - 2))) (shl (u16 (byte_at frame j)) 8))
            {y = n - 2 + 1} (omega arith)
          ∙ word_of_copy n (n - 2) k (omega arith))
    where
      frame : List ℕ
      frame = ring_copy p 0 n

  pub header_checksum :
      4 ≤ p.count
      → (duml_crc8 (ring_copy p 0 3) == ring_peek p 3)
        ≡ (duml_crc8 (take 3 (contents p)) == get_or (contents p) 3 0)
  header_checksum h =
      ap₂ (λ a b. duml_crc8 a == b) (ring_copy-contents p 3 (omega arith))
        (ring_peek-contents p 3 h)

-- An empty ring is valid and holds nothing.
empty-IsValid :
    (p : Parser) → IsRing p → p.count ≡ 0 → p.state ≡ scan_sof → IsValid p × (contents p ≡ [])
unfolding contents ring_copy
empty-IsValid p v none_left e = (scan_sof-IsValid p v e, ap (ring_copy p 0) none_left)

pub fresh-IsValid : IsValid fresh × (contents fresh ≡ [])
fresh-IsValid = empty-IsValid fresh ring (unfold fresh in refl) (unfold fresh in refl)
  where
    ring : IsRing fresh
    ring =
        unfold fresh in
        record {
          size = length-replicate {A = ℕ} 4096 0;
          head_in = omega arith;
          count_in = omega arith;
          bytes = All-replicate (λ b. b < 256) 4096 0 (omega arith);
        }

-- `rcm_create` fails without a callback or without memory, and otherwise gives a valid parser that
-- holds no byte.
pub create_lem :
    (callback allocated : Bool)
    → ((callback && allocated ≡ false) × (create callback allocated ≡ none))
      ⊎ ((p : Parser) × (create callback allocated ≡ some p) × IsValid p × (contents p ≡ []))
unfolding create
create_lem false allocated = inl (refl, refl)
create_lem true false = inl (refl, refl)
create_lem true true = inr (fresh, refl, fresh-IsValid.0, fresh-IsValid.1)

-- `rcm_reset` makes a parser valid that has its ring intact, whatever it held, and empties it.
pub reset_lem :
    (p : Parser)
    → IsRing p
    → (q : Parser) × (reset (some p) ≡ some q) × IsValid q × (contents q ≡ [])
unfolding reset
reset_lem p v =
    let q : Parser = record p { head = 0; count = 0; state = scan_sof; frame_len = 0 } in
    let w : IsRing q = record {
      size = v.size;
      head_in = omega arith;
      count_in = omega arith;
      bytes = v.bytes;
    } in
    (q, refl, (empty-IsValid q w refl refl).0, (empty-IsValid q w refl refl).1)
