-- ===== src/Parser/Ring.antt =====
-- The ring buffer holds a queue of bytes: what each operation does to that queue.
use native.Mathlib.Decide.{dec_lt}
use native.Mathlib.Nat.{add-zero, zero-add}
use rc_monitor.Base.{
  ℕ, zero, suc, ◌+◌, ◌-◌, ◌%◌, ◌<◌, ◌≤◌, ◌≡◌, ◌≢◌, refl, sym, ap, ap₂, ◌∙◌, subst, arith,
}
use rc_monitor.Base.{List, [], ◌∷◌, ◌++◌, get_or, take, drop, length, length-set, length-append}
use rc_monitor.Base.{
  get_or-set_self, get_or-set_ne, get_or_ext, get_or-append_left, get_or-append_right, get_or_none,
  IsBytes, All-get_or, All-set,
}
use rc_monitor.Parser.{
  Parser, ring_size, slot, ring_peek, ring_copy, ring_consume, ring_push, Assembly,
}

-- The bytes in the buffer, oldest first.
unfoldable pub contents : Parser → List ℕ
contents p = ring_copy p 0 p.count

-- The representation: no index leaves the array, and it holds bytes.
pub record IsRing (p : Parser) : Type 0 where
  pub size : length p.ring ≡ ring_size
  pub head_in : p.head < ring_size
  pub count_in : p.count ≤ ring_size
  pub bytes : IsBytes p.ring

pub length-ring_copy : (p : Parser) (i n : ℕ) → length (ring_copy p i n) ≡ n
unfolding ring_copy
length-ring_copy p i zero = refl
length-ring_copy p i (suc n) = ap suc (length-ring_copy p (i + 1) n)

pub length-contents : (p : Parser) → length (contents p) ≡ p.count
unfolding contents
length-contents p = length-ring_copy p 0 p.count

pub get_or-ring_copy :
    (p : Parser) (i n j : ℕ) → j < n → get_or (ring_copy p i n) j 0 ≡ ring_peek p (i + j)
unfolding ring_copy
get_or-ring_copy p i zero j h = absurd (omega arith)
get_or-ring_copy p i (suc n) zero h = rw add-zero
get_or-ring_copy p i (suc n) (suc j) h =
    get_or-ring_copy p (i + 1) n j (omega arith) ∙ ap (ring_peek p) {y = i + suc j} (omega arith)

-- `ring_peek` reads the queue.
pub ring_peek-contents :
    (p : Parser) (i : ℕ) → i < p.count → ring_peek p i ≡ get_or (contents p) i 0
unfolding contents
ring_peek-contents p i h =
    ap (ring_peek p) (sym (zero-add i)) ∙ sym (get_or-ring_copy p 0 p.count i h)

take-ring_copy : (p : Parser) (i n m : ℕ) → n ≤ m → take n (ring_copy p i m) ≡ ring_copy p i n
unfolding ring_copy
take-ring_copy p i zero m h = refl
take-ring_copy p i (suc n) zero h = absurd (omega arith)
take-ring_copy p i (suc n) (suc m) h =
    ap (λ t. ring_peek p i ∷ t) (take-ring_copy p (i + 1) n m (omega arith))

-- `ring_copy` from the front takes a prefix of the queue.
pub ring_copy-contents : (p : Parser) (n : ℕ) → n ≤ p.count → ring_copy p 0 n ≡ take n (contents p)
unfolding contents
ring_copy-contents p n h = sym (take-ring_copy p 0 n p.count h)

-- Copies that see the same bytes are equal.
ring_copy_ext :
    (p q : Parser) (i k n : ℕ)
    → ((j : ℕ) → j < n → ring_peek p (i + j) ≡ ring_peek q (k + j))
    → ring_copy p i n ≡ ring_copy q k n
ring_copy_ext p q i k n h =
    get_or_ext 0 (ring_copy p i n) (ring_copy q k n)
      (length-ring_copy p i n ∙ sym (length-ring_copy q k n))
      (λ j lt.
        let small : j < n = omega (arith, length-ring_copy p i n) in
        get_or-ring_copy p i n j small ∙ h j small ∙ sym (get_or-ring_copy q k n j small))

drop-ring_copy :
    (p : Parser) (i n m : ℕ) → n ≤ m → drop n (ring_copy p i m) ≡ ring_copy p (i + n) (m - n)
unfolding ring_copy
drop-ring_copy p i zero m h = ap₂ (ring_copy p) (omega arith) (omega arith)
drop-ring_copy p i (suc n) zero h = absurd (omega arith)
drop-ring_copy p i (suc n) (suc m) h =
    drop-ring_copy p (i + 1) n m (omega arith) ∙ ap₂ (ring_copy p) (omega arith) (omega arith)

-- No `size_t` sum of the index wraps.
slot_value : (h c i : ℕ) → h < 4096 → c ≤ 4096 → i ≤ 4096 → slot h c i ≡ (h + 4096 - c + i) % 4096
unfolding slot
slot_value h c i hh hc hi = omega arith

slot_consume : (h c n i : ℕ) → h < 4096 → c ≤ 4096 → n + i < c → slot h (c - n) i ≡ slot h c (n + i)
slot_consume h c n i hh hc hi =
    slot_value h (c - n) i hh (omega arith) (omega arith)
    ∙ ap (λ t. t % 4096) (omega arith)
    ∙ sym (slot_value h c (n + i) hh hc (omega arith))

slot_push :
    (h c i : ℕ)
    → h < 4096
    → c < 4096
    → i ≤ c
    → slot ((h + 1) % 4096) (c + 1) i ≡ (h + 4096 - c + i) % 4096
slot_push h c i hh hc hi =
    slot_value ((h + 1) % 4096) (c + 1) i (omega arith) (omega arith) (omega arith) ∙ omega arith

-- The slot that a push fills is none of those in use.
slot-ne-head : (h c i : ℕ) → h < 4096 → c < 4096 → i < c → h ≢ (h + 4096 - c + i) % 4096
slot-ne-head h c i hh hc hi = omega arith

pub count-ring_consume : (p : Parser) (n : ℕ) → n ≤ p.count → (ring_consume p n).count ≡ p.count - n
unfolding ring_consume
count-ring_consume p n h = ground arith

-- Consuming moves the front.
ring_peek-consume :
    (p : Parser) (n i : ℕ)
    → IsRing p
    → n + i < p.count
    → ring_peek (ring_consume p n) (0 + i) ≡ ring_peek p (0 + n + i)
unfolding ring_peek ring_consume
ring_peek-consume p n i v h =
    rw (count-ring_consume p n (omega arith), zero-add, zero-add)
      (ap (λ k. get_or p.ring k 0) (slot_consume p.head p.count n i v.head_in v.count_in h))

-- With an intact ring `ring_consume` drops bytes from the front of the queue, up to all of them.
pub contents-ring_consume :
    (p : Parser) (n : ℕ)
    → IsRing p
    → n ≤ p.count
    → contents (ring_consume p n) ≡ drop n (contents p)
unfolding contents
contents-ring_consume p n v h =
    ap (ring_copy (ring_consume p n) 0) (count-ring_consume p n h)
    ∙ ring_copy_ext (ring_consume p n) p 0 (0 + n) (p.count - n)
        (λ j lt. ring_peek-consume p n j v (omega arith))
    ∙ sym (drop-ring_copy p 0 n p.count h)

pub ring_consume-IsRing : (p : Parser) (n : ℕ) → IsRing p → IsRing (ring_consume p n)
unfolding ring_consume
ring_consume-IsRing p n v = record {
  size = v.size;
  head_in = v.head_in;
  count_in = ground arith;
  bytes = v.bytes;
}

pub count-ring_push :
    (p : Parser) (b : ℕ) → p.count < ring_size → (ring_push p b).count ≡ p.count + 1
unfolding ring_push
count-ring_push p b h = ground arith

head-ring_push : (p : Parser) (b : ℕ) → IsRing p → (ring_push p b).head ≡ (p.head + 1) % 4096
unfolding ring_push
head-ring_push p b v = omega arith

-- The index of a byte after a push.
slot-ring_push :
    (p : Parser) (b i : ℕ)
    → IsRing p
    → p.count < ring_size
    → i ≤ p.count
    → slot (ring_push p b).head (ring_push p b).count i ≡ (p.head + 4096 - p.count + i) % 4096
slot-ring_push p b i v room h =
    ap₂ (λ x y. slot x y i) (head-ring_push p b v) (count-ring_push p b room)
    ∙ slot_push p.head p.count i v.head_in room h

ring_peek-push_old :
    (p : Parser) (b i : ℕ)
    → IsRing p
    → p.count < ring_size
    → i < p.count
    → ring_peek (ring_push p b) i ≡ ring_peek p i
unfolding ring_peek
ring_peek-push_old p b i v room h = rw (slot-ring_push p b i v room (omega arith)) (
    unfold ring_push in
    get_or-set_ne p.ring p.head ((p.head + 4096 - p.count + i) % 4096) b 0
      (slot-ne-head p.head p.count i v.head_in room h)
    ∙ ap (λ k. get_or p.ring k 0)
        (sym (slot_value p.head p.count i v.head_in v.count_in (omega arith))))

ring_peek-push_new :
    (p : Parser) (b : ℕ) → IsRing p → p.count < ring_size → ring_peek (ring_push p b) p.count ≡ b
unfolding ring_peek
ring_peek-push_new p b v room = rw (slot-ring_push p b p.count v room (omega arith)) (
    ap (λ k. get_or (ring_push p b).ring k 0) {y = p.head} (omega arith)
    ∙ (unfold ring_push in get_or-set_self p.ring p.head b 0 (omega arith)))

-- With an intact ring `ring_push` appends to the queue, while it has room.
pub contents-ring_push :
    (p : Parser) (b : ℕ)
    → IsRing p
    → p.count < ring_size
    → contents (ring_push p b) ≡ contents p ++ (b ∷ [])
contents-ring_push p b v room =
    get_or_ext 0 (contents (ring_push p b)) (contents p ++ (b ∷ [])) lengths bytes
  where
    lengths : length (contents (ring_push p b)) ≡ length (contents p ++ (b ∷ []))
    lengths = omega (
      arith,
      length-contents (ring_push p b),
      count-ring_push p b room,
      length-append (contents p) (b ∷ []),
      length-contents p,
    )

    bytes :
        (i : ℕ)
        → i < length (contents (ring_push p b))
        → get_or (contents (ring_push p b)) i 0 ≡ get_or (contents p ++ (b ∷ [])) i 0
    bytes i lt = sym (ring_peek-contents (ring_push p b) i below) ∙ same
      where
        below : i < (ring_push p b).count
        below = omega (arith, length-contents (ring_push p b))

        newest : i ≡ p.count → ring_peek (ring_push p b) i ≡ get_or (contents p ++ (b ∷ [])) i 0
        newest e =
            ap (ring_peek (ring_push p b)) e
            ∙ ring_peek-push_new p b v room
            ∙ sym (get_or-append_right (contents p) (b ∷ []) 0 0)
            ∙ ap (λ k. get_or (contents p ++ (b ∷ [])) k 0) {y = i}
                (omega (arith, length-contents p))

        same : ring_peek (ring_push p b) i ≡ get_or (contents p ++ (b ∷ [])) i 0
        same = elim (dec_lt i p.count) [
          | yes old ↦
              ring_peek-push_old p b i v room old
              ∙ ring_peek-contents p i old
              ∙ sym
                  (get_or-append_left (contents p) (b ∷ []) i 0 (omega (arith, length-contents p)))
          | no new ↦ newest (omega (arith, below, count-ring_push p b room))
        ]

pub ring_push-IsRing : (p : Parser) (b : ℕ) → b < 256 → IsRing p → IsRing (ring_push p b)
unfolding ring_push
ring_push-IsRing p b small v = record {
  size = length-set p.ring p.head b ∙ v.size;
  head_in = omega arith;
  count_in = ground arith;
  bytes = All-set (λ x. x < 256) p.ring p.head b small v.bytes;
}

-- The queue depends on the ring alone.
pub contents_same_ring :
    (p : Parser) (s : Assembly) (n : ℕ)
    → contents (record p { state = s; frame_len = n }) ≡ contents p
unfolding contents
contents_same_ring p s n =
    ring_copy_ext (record p { state = s; frame_len = n }) p 0 0 p.count
      (λ j lt. unfold ring_peek in refl)

pub IsBytes-contents : (p : Parser) (i : ℕ) → IsRing p → get_or (contents p) i 0 < 256
IsBytes-contents p i v = elim (dec_lt i p.count) [
  | yes old ↦
      subst (λ b. b < 256) (ring_peek-contents p i old)
        (unfold ring_peek in
          All-get_or (λ x. x < 256) p.ring (slot p.head p.count i) 0 (omega arith) v.bytes)
  | no new ↦
      subst (λ b. b < 256) (sym (get_or_none (contents p) i (omega (arith, length-contents p))))
        (omega arith)
]
