-- ===== src/Parser/Step.antt =====
-- One round of `try_decode_frame` takes the decision that `Scan.front` states of the queue.
use native.Mathlib.Decide.{dec_lt}
use rc_monitor.Base.{ℕ, ◌≤◌, ◌≡◌, refl, sym, ap, ◌∙◌, subst, arith, true, false, not, ◌||◌}
use rc_monitor.Base.{
  List, get_or, take, drop, length, ltb, ◌==◌, if◌then◌else◌, Bool-cases, inl, inr, ltb→lt, lt→ltb,
}
use rc_monitor.State.{duml_sof, duml_min_frame_len, duml_max_frame_len}
use rc_monitor.Crc.{duml_crc8}
use rc_monitor.Scan.{header_ok, frame_ok, front, incomplete, skip, frame}
use rc_monitor.Parser.{
  Parser, Assembly, scan_sof, read_frame, ring_copy, ring_peek, ring_consume, Ret, need_more,
  deliver, Round, again, return, read_body, header_len, accept_header, scan_header, round_of,
}
use rc_monitor.Parser.Ring.{
  IsRing, contents, length-contents, ring_copy-contents, ring_peek-contents, contents-ring_consume,
  ring_consume-IsRing, contents_same_ring,
}
use rc_monitor.Parser.Valid.{
  HeaderAt, IsValid, front_not_sof, front_few, front_bad_header, header_ok_checksum,
  header_ok_range, HeaderAt-min, front-short, front-good, front-bad, scan_sof-IsValid,
  announced_lem, frame_ok_lem, header_checksum,
}

-- What a round does to a queue `xs`: it waits with the queue as it is, skips bytes that belong to no
-- frame, or takes a frame and returns what the frame leads to.
pub data Follows (xs : List ℕ) : Round → Type 0 where
  waits :
      {p : Parser}
      → front xs ≡ incomplete
      → contents p ≡ xs
      → IsValid p
      → Follows xs (return need_more p)
  skips :
      {p : Parser} (n : ℕ)
      → front xs ≡ skip n
      → contents p ≡ drop n xs
      → IsValid p
      → Follows xs (again p)
  accepts :
      {p : Parser} {r : Ret} (n : ℕ)
      → front xs ≡ frame n
      → contents p ≡ drop n xs
      → IsValid p
      → r ≡ deliver (take n xs) n
      → Follows xs (return r p)

-- Consuming from the front and scanning on.
consumed :
    (p : Parser) (n k : ℕ)
    → IsRing p
    → n ≤ p.count
    → let q = record (ring_consume p n) { state = scan_sof; frame_len = k } in
      IsValid q × (contents q ≡ drop n (contents p))
consumed p n k v h = (
  scan_sof-IsValid _
      (record {
        size = (ring_consume-IsRing p n v).size;
        head_in = (ring_consume-IsRing p n v).head_in;
        count_in = (ring_consume-IsRing p n v).count_in;
        bytes = (ring_consume-IsRing p n v).bytes;
      })
      refl,
  contents_same_ring (ring_consume p n) scan_sof k ∙ contents-ring_consume p n v h,
)

skipped :
    (p : Parser)
    → IsRing p
    → 1 ≤ p.count
    → p.state ≡ scan_sof
    → IsValid (ring_consume p 1) × (contents (ring_consume p 1) ≡ drop 1 (contents p))
skipped p v h e = (
  scan_sof-IsValid _ (ring_consume-IsRing p 1 v) (unfold ring_consume in e),
  contents-ring_consume p 1 v h,
)

-- State `READ_FRAME`: wait for the announced length, then check the frame and take it or drop it.
read_body-Follows :
    (p : Parser)
    → IsRing p
    → p.state ≡ read_frame
    → HeaderAt (contents p) p.frame_len
    → Follows (contents p) (read_body p)
unfolding read_body
read_body-Follows p v reading h = elim (Bool-cases (ltb p.count p.frame_len)) [
  | inl short ↦ rw short (
      waits (front-short xs n h (omega (arith, size, ltb→lt _ _ short))) refl
        (record { ring_ok = v; header = λ _. h }))
  | inr long ↦
      let enough : n ≤ p.count = ground arith in
      let test = frame_ok_lem p v n (HeaderAt-min xs n h) enough in
      let after = consumed p n (ring_consume p n).frame_len v enough in
      elim (Bool-cases (frame_ok xs n)) [
        | inl good ↦
            rw (long, test, good)
              (accepts n (front-good xs n h (omega (arith, size)) good) after.1 after.0
                (ap (λ t. deliver t n) (ring_copy-contents p n enough)))
        | inr bad ↦
            rw (long, test, bad)
              (skips n (front-bad xs n h (omega (arith, size)) bad) after.1 after.0)
      ]
]
  where
    xs : List ℕ
    xs = contents p

    n : ℕ
    n = p.frame_len

    size : length (contents p) ≡ p.count
    size = length-contents p

-- A good header: the state changes to `READ_FRAME`, and its part runs at once.
header-Follows :
    (p : Parser) (n : ℕ)
    → IsRing p
    → HeaderAt (contents p) n
    → Follows (contents p) (read_body (record p { state = read_frame; frame_len = n }))
header-Follows p n v h =
    subst (λ xs. Follows xs (read_body q)) same
      (read_body-Follows q
        (record { size = v.size; head_in = v.head_in; count_in = v.count_in; bytes = v.bytes }) refl
        (subst (λ xs. HeaderAt xs n) (sym same) h))
  where
    q : Parser
    q = record p { state = read_frame; frame_len = n }

    same : contents q ≡ contents p
    same = contents_same_ring p read_frame n

module _ (p : Parser) (v : IsRing p) (scanning : p.state ≡ scan_sof) (some_byte : 1 ≤ p.count) where
  size : length (contents p) ≡ p.count
  size = length-contents p

  first : (ring_peek p 0 == duml_sof) ≡ (get_or (contents p) 0 0 == duml_sof)
  first = ap (λ b. b == duml_sof) (ring_peek-contents p 0 some_byte)

  -- A header with a good checksum.
  accept_header-Follows :
      4 ≤ p.count
      → (get_or (contents p) 0 0 == duml_sof) ≡ true
      → (duml_crc8 (take 3 (contents p)) == get_or (contents p) 3 0) ≡ true
      → Follows (contents p) (accept_header p)
  unfolding accept_header
  accept_header-Follows four sof good = elim (Bool-cases (header_ok (contents p))) [
    | inl ok ↦
        rw (range, ok)
          (header-Follows p (header_len p) v (record {
            enough = omega (arith, size);
            sof = ground arith;
            good = ok;
            announces = announced_lem p v four;
          }))
    | inr bad ↦
        rw (range, bad)
          (skips 1 (front_bad_header (contents p) (omega (arith, size)) sof bad) after.1 after.0)
  ]
    where
      range :
          (ltb (header_len p) duml_min_frame_len || ltb duml_max_frame_len (header_len p))
          ≡ not (header_ok (contents p))
      range = header_ok_range (contents p) (header_len p) (announced_lem p v four) good

      q : Parser
      q = record p { frame_len = header_len p }

      after : IsValid (ring_consume q 1) × (contents (ring_consume q 1) ≡ drop 1 (contents p))
      after =
          let w : IsRing q = record {
            size = v.size;
            head_in = v.head_in;
            count_in = v.count_in;
            bytes = v.bytes;
          } in
          let done = skipped q w some_byte scanning in
          (done.0, done.1 ∙ ap (drop 1) (contents_same_ring p p.state (header_len p)))

  -- State `SCAN_SOF`.
  scan_header-Follows : Follows (contents p) (scan_header p)
  unfolding scan_header
  scan_header-Follows = elim (Bool-cases (get_or (contents p) 0 0 == duml_sof)) [
    | inr other ↦
        rw (first, other)
          (skips 1 (front_not_sof (contents p) (omega (arith, size)) other) skip_one.1 skip_one.0)
    | inl sof ↦ elim (dec_lt p.count 4) [
      | yes few ↦
          rw (first, sof, lt→ltb _ _ few)
            (waits (front_few (contents p) (omega (arith, size)) sof (omega (arith, size))) refl
              (scan_sof-IsValid p v scanning))
      | no four ↦ rw (first, sof, not_few (omega arith)) (by_checksum sof (omega arith))
    ]
  ]
    where
      skip_one : IsValid (ring_consume p 1) × (contents (ring_consume p 1) ≡ drop 1 (contents p))
      skip_one = skipped p v some_byte scanning

      not_few : 4 ≤ p.count → ltb p.count 4 ≡ false
      not_few h = ground arith

      by_checksum :
          (get_or (contents p) 0 0 == duml_sof) ≡ true
          → 4 ≤ p.count
          → Follows (contents p) (
              if not (duml_crc8 (ring_copy p 0 3) == ring_peek p 3)
              then again (ring_consume p 1)
              else accept_header p)
      by_checksum sof four =
          elim (Bool-cases (duml_crc8 (take 3 (contents p)) == get_or (contents p) 3 0)) [
            | inl good ↦ rw (header_checksum p v four, good) (accept_header-Follows four sof good)
            | inr bad ↦
                rw (header_checksum p v four, bad)
                  (skips 1
                    (front_bad_header (contents p) (omega (arith, size)) sof
                      (header_ok_checksum (contents p) bad))
                    skip_one.1 skip_one.0)
          ]

-- A round of a valid parser that holds a byte takes the decision about the front of its queue: it returns
-- -1 with the queue as it was if the front is incomplete, goes on behind the bytes that belong to no
-- frame, or returns what the frame at the front leads to, with that frame consumed. The invariant
-- is kept.
pub round-Follows :
    (p : Parser) → IsValid p → 1 ≤ p.count → Follows (contents p) (round_of p.state p)
round-Follows p v h = by_state p.state refl
  where
    by_state : (s : Assembly) → p.state ≡ s → Follows (contents p) (round_of s p)
    by_state scan_sof e = unfold round_of in scan_header-Follows p v.ring_ok e h
    by_state read_frame e = unfold round_of in read_body-Follows p v.ring_ok e (v.header e)
