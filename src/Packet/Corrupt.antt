-- ===== src/Packet/Corrupt.antt =====
-- A packet with one byte changed, anywhere in it, is not taken for a frame.
use native.Mathlib.Decide.{dec_lt, ℕ_discrete}
use rc_monitor.Base.{
  ℕ, zero, suc, ◌+◌, ◌-◌, ◌*◌, ◌<◌, ◌≤◌, ◌≡◌, ◌≢◌, refl, sym, ap, ap₂, ◌∙◌, subst, arith,
}
use rc_monitor.Base.{
  Bool, true, false, List, [], ◌∷◌, ◌++◌, take, length, get_or, length-append, take-append_left,
  IsBytes, All-take, ◌==◌, ==_iff, if◌then◌else◌, ltb, Bool-cases, inl, inr,
}
use rc_monitor.State.{duml_sof}
use rc_monitor.Crc.{duml_crc8, duml_crc16}
use rc_monitor.Crc.Detect.{duml_crc_detects_byte}
use rc_monitor.Scan.{announced, header_ok, frame_ok, front, incomplete, skip, word_at}
use rc_monitor.Scan.Laws.{announced-append, header_ok-append, front-append}
use rc_monitor.Packet.Layout.{packet, length-packet}
use rc_monitor.Packet.RoundTrip.{Message, packet-HeaderAt, frame_ok-packet}
use rc_monitor.Packet.Delivery.{IsPush, packet-IsBytes}
use rc_monitor.Parser.Valid.{
  HeaderAt, HeaderAt-min, front_not_sof, front_bad_header, header_ok_checksum, front-bad,
}

-- The byte at the end of `xs` and the others of `xs ++ (b ∷ ys)`.
get_or_at : (xs : List ℕ) (b : ℕ) (ys : List ℕ) → get_or (xs ++ (b ∷ ys)) (length xs) 0 ≡ b
get_or_at [] b ys = refl
get_or_at (x ∷ xs) b ys = get_or_at xs b ys

get_or_elsewhere :
    (xs : List ℕ) (b e : ℕ) (ys : List ℕ) (j : ℕ)
    → j ≢ length xs
    → get_or (xs ++ (b ∷ ys)) j 0 ≡ get_or (xs ++ (e ∷ ys)) j 0
get_or_elsewhere [] b e ys zero h = absurd (h refl)
get_or_elsewhere [] b e ys (suc j) h = refl
get_or_elsewhere (x ∷ xs) b e ys zero h = refl
get_or_elsewhere (x ∷ xs) b e ys (suc j) h = get_or_elsewhere xs b e ys j (λ p. h (ap suc p))

take_over :
    (xs : List ℕ) (b : ℕ) (ys : List ℕ) (n : ℕ)
    → length xs < n
    → take n (xs ++ (b ∷ ys)) ≡ xs ++ (b ∷ take (n - length xs - 1) ys)
take_over [] b ys zero h = absurd (omega arith)
take_over [] b ys (suc n) h = ap (λ k. b ∷ take k ys) (omega arith)
take_over (x ∷ xs) b ys zero h = absurd (omega arith)
take_over (x ∷ xs) b ys (suc n) h =
    ap (λ l. x ∷ l)
      (take_over xs b ys n (omega arith) ∙ ap (λ k. xs ++ (b ∷ take k ys)) (omega arith))

header_ok→checksum : (xs : List ℕ) → header_ok xs ≡ true → duml_crc8 (take 3 xs) ≡ get_or xs 3 0
unfolding header_ok
header_ok→checksum xs h = (==_iff _ _).0 (ground arith)

pub IsBytes-before : (xs ys : List ℕ) → IsBytes (xs ++ ys) → IsBytes xs
IsBytes-before [] ys h = tt
IsBytes-before (x ∷ xs) ys h = (h.0, IsBytes-before xs ys h.1)

pub IsBytes-after : (xs ys : List ℕ) → IsBytes (xs ++ ys) → IsBytes ys
IsBytes-after [] ys h = h
IsBytes-after (x ∷ xs) ys h = IsBytes-after xs ys h.1

¬true→false : (t : Bool) → t ≢ true → t ≡ false
¬true→false true h = absurd (h refl)
¬true→false false h = refl

-- A good frame, and the same bytes but for one.
module _ (xs : List ℕ) (b e : ℕ) (ys : List ℕ) (n : ℕ) (hb : b < 256) (he : e < 256)
    (bytes : IsBytes ys) (ne : b ≢ e) (good : HeaderAt (xs ++ (b ∷ ys)) n)
    (whole : length (xs ++ (b ∷ ys)) ≡ n) (checked : frame_ok (xs ++ (b ∷ ys)) n ≡ true) where
  size : length (xs ++ (e ∷ ys)) ≡ n
  size = omega (arith, whole, length-append xs (b ∷ ys), length-append xs (e ∷ ys))

  -- A checksum over a part with the byte changes.
  crc8_differs :
      (k : ℕ)
      → length xs < k
      → duml_crc8 (take k (xs ++ (b ∷ ys))) ≢ duml_crc8 (take k (xs ++ (e ∷ ys)))
  crc8_differs k h =
      rw (take_over xs b ys k h, take_over xs e ys k h)
        (duml_crc_detects_byte xs b e (take (k - length xs - 1) ys) hb he
          (All-take (λ x. x < 256) (k - length xs - 1) ys bytes) ne).0

  crc16_differs :
      (k : ℕ)
      → length xs < k
      → duml_crc16 (take k (xs ++ (b ∷ ys))) ≢ duml_crc16 (take k (xs ++ (e ∷ ys)))
  crc16_differs k h =
      rw (take_over xs b ys k h, take_over xs e ys k h)
        (duml_crc_detects_byte xs b e (take (k - length xs - 1) ys) hb he
          (All-take (λ x. x < 256) (k - length xs - 1) ys bytes) ne).1

  -- One over a part in front of the byte does not.
  take_before : (k : ℕ) → k ≤ length xs → take k (xs ++ (b ∷ ys)) ≡ take k (xs ++ (e ∷ ys))
  take_before k h = take-append_left k xs (b ∷ ys) h ∙ sym (take-append_left k xs (e ∷ ys) h)

  elsewhere : (j : ℕ) → j ≢ length xs → get_or (xs ++ (b ∷ ys)) j 0 ≡ get_or (xs ++ (e ∷ ys)) j 0
  elsewhere j h = get_or_elsewhere xs b e ys j h

  old_byte : get_or (xs ++ (b ∷ ys)) (length xs) 0 ≡ b
  old_byte = get_or_at xs b ys

  new_byte : get_or (xs ++ (e ∷ ys)) (length xs) 0 ≡ e
  new_byte = get_or_at xs e ys

  checksum_holds : duml_crc8 (take 3 (xs ++ (b ∷ ys))) ≡ get_or (xs ++ (b ∷ ys)) 3 0
  checksum_holds = header_ok→checksum (xs ++ (b ∷ ys)) good.good

  frame_holds : duml_crc16 (take (n - 2) (xs ++ (b ∷ ys))) ≡ word_at (xs ++ (b ∷ ys)) (n - 2)
  frame_holds = (==_iff _ _).0 (unfold frame_ok in checked)

  -- The header's checksum fails if the byte is among the first four.
  header_rejected :
      length xs < 4 → duml_crc8 (take 3 (xs ++ (e ∷ ys))) ≢ get_or (xs ++ (e ∷ ys)) 3 0
  header_rejected h p = elim (dec_lt (length xs) 3) [
    | yes lt ↦ crc8_differs 3 lt (checksum_holds ∙ elsewhere 3 (λ q. omega (arith, q)) ∙ sym p)
    | no ge ↦
        let at_3 : length xs ≡ 3 = omega arith in
        ne (
          sym old_byte
          ∙ ap (λ k. get_or (xs ++ (b ∷ ys)) k 0) at_3
          ∙ sym checksum_holds
          ∙ ap duml_crc8 (take_before 3 (omega arith))
          ∙ p
          ∙ ap (λ k. get_or (xs ++ (e ∷ ys)) k 0) (sym at_3)
          ∙ new_byte)
  ]

  -- The checksum's own two bytes: one of them changes.
  words_differ :
      length xs < n
      → ¬ (length xs < n - 2)
      → word_at (xs ++ (b ∷ ys)) (n - 2) ≢ word_at (xs ++ (e ∷ ys)) (n - 2)
  words_differ h ge q = ne (elim (ℕ_discrete (length xs) (n - 2)) [
    | yes at ↦ omega (
      arith,
      q,
      elsewhere (n - 2 + 1) (λ r. omega (arith, r, at)),
      ap (λ k. get_or (xs ++ (b ∷ ys)) k 0) at,
      ap (λ k. get_or (xs ++ (e ∷ ys)) k 0) at,
      old_byte,
      new_byte,
    )
    | no other ↦
        let at : length xs ≡ n - 2 + 1 = omega (arith, HeaderAt-min _ n good) in
        omega (
          arith,
          q,
          elsewhere (n - 2) (λ r. other (sym r)),
          ap (λ k. get_or (xs ++ (b ∷ ys)) k 0) at,
          ap (λ k. get_or (xs ++ (e ∷ ys)) k 0) at,
          old_byte,
          new_byte,
        )
  ])

  -- The frame's checksum fails wherever the byte is.
  frame_rejected : length xs < n → frame_ok (xs ++ (e ∷ ys)) n ≢ true
  unfolding frame_ok
  frame_rejected h p = elim (dec_lt (length xs) (n - 2)) [
    | yes lt ↦ crc16_differs (n - 2) lt (frame_holds ∙ same_word lt ∙ sym ((==_iff _ _).0 p))
    | no ge ↦
        words_differ h ge
          (sym frame_holds ∙ ap duml_crc16 (take_before (n - 2) (omega arith)) ∙ (==_iff _ _).0 p)
  ]
    where
      same_word :
          length xs < n - 2 → word_at (xs ++ (b ∷ ys)) (n - 2) ≡ word_at (xs ++ (e ∷ ys)) (n - 2)
      same_word lt =
          ap₂ (λ i j. i + 256 * j) (elsewhere (n - 2) (λ q. omega (arith, q)))
            (elsewhere (n - 2 + 1) (λ q. omega (arith, q)))

  announced_kept : 4 ≤ length xs → announced (xs ++ (e ∷ ys)) ≡ announced (xs ++ (b ∷ ys))
  announced_kept h =
      announced-append xs (e ∷ ys) (omega arith) ∙ sym (announced-append xs (b ∷ ys) (omega arith))

  header_kept : 4 ≤ length xs → HeaderAt (xs ++ (e ∷ ys)) n
  header_kept h = record {
    enough = omega (arith, length-append xs (e ∷ ys));
    sof = sym (elsewhere 0 (λ q. omega (arith, q))) ∙ good.sof;
    good = header_ok-append xs (e ∷ ys) h ∙ sym (header_ok-append xs (b ∷ ys) h) ∙ good.good;
    announces = good.announces ∙ sym (announced_kept h);
  }

  -- The front of what is left: one byte is passed over, or the whole frame.
  front_early : length xs < 4 → front (xs ++ (e ∷ ys)) ≡ skip 1
  front_early h = elim (Bool-cases (get_or (xs ++ (e ∷ ys)) 0 0 == duml_sof)) [
    | inl t ↦
        front_bad_header _ long t
          (header_ok_checksum _ (¬true→false _ (λ q. header_rejected h ((==_iff _ _).0 q))))
    | inr f ↦ front_not_sof _ (omega (arith, long)) f
  ]
    where
      long : 4 ≤ length (xs ++ (e ∷ ys))
      long = omega (arith, size, HeaderAt-min _ n good)

  front_late : 4 ≤ length xs → front (xs ++ (e ∷ ys)) ≡ skip n
  front_late h =
      front-bad _ n (header_kept h) (omega (arith, size))
        (¬true→false _ (frame_rejected (omega (arith, whole, length-append xs (b ∷ ys)))))

-- A packet of at most 1023 bytes in which one byte is changed is not taken for a frame, whatever
-- follows it. The parser passes over its first byte if the change is in the first four, and over the
-- whole packet otherwise.
pub front-changed_packet :
    (m : Message) (xs : List ℕ) (b e : ℕ) (ys zs : List ℕ)
    → packet m.header m.payload ≡ xs ++ (b ∷ ys)
    → IsPush m
    → e < 256
    → b ≢ e
    → front ((xs ++ (e ∷ ys)) ++ zs) ≡ skip (if ltb (length xs) 4 then 1 else 13 + length m.payload)
front-changed_packet m xs b e ys zs cut v he ne =
    front-append (xs ++ (e ∷ ys)) zs (λ q. settled (sym settle ∙ q)) ∙ settle
  where
    n : ℕ
    n = 13 + length m.payload

    bytes : (b < 256) × IsBytes ys
    bytes = IsBytes-after xs (b ∷ ys) (subst IsBytes cut (packet-IsBytes m v))

    good : HeaderAt (xs ++ (b ∷ ys)) n
    good = subst (λ l. HeaderAt l n) cut (packet-HeaderAt m.header m.payload v.short)

    whole : length (xs ++ (b ∷ ys)) ≡ n
    whole = ap length (sym cut) ∙ length-packet m.header m.payload

    checked : frame_ok (xs ++ (b ∷ ys)) n ≡ true
    checked = ap (λ l. frame_ok l n) (sym cut) ∙ frame_ok-packet m.header m.payload

    settle : front (xs ++ (e ∷ ys)) ≡ skip (if ltb (length xs) 4 then 1 else n)
    settle = elim (dec_lt (length xs) 4) [
      | yes lt ↦
          front_early xs b e ys n bytes.0 he bytes.1 ne good whole checked lt
          ∙ ap skip (ground arith)
      | no ge ↦
          front_late xs b e ys n bytes.0 he bytes.1 ne good whole checked (omega arith)
          ∙ ap skip (ground arith)
    ]

    settled : {k : ℕ} → skip k ≢ incomplete
    settled q = cc
