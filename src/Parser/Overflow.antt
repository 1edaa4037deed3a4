-- ===== src/Parser/Overflow.antt =====
-- `ring_push` on a buffer that is full.
use rc_monitor.Base.{ℕ, ◌-◌, ◌%◌, ◌<◌, ◌≡◌, ap, ◌∙◌, arith, [], ◌∷◌, ◌++◌, drop, set}
use rc_monitor.Base.Word.{add_size}
use rc_monitor.Parser.{Parser, ring_size, ring_push, ring_consume}
use rc_monitor.Parser.Ring.{
  IsRing, contents, contents-ring_push, contents-ring_consume, ring_consume-IsRing,
  ring_push-IsRing, count-ring_consume,
}

-- A byte that is pushed onto a full buffer takes the place of the oldest one.
ring_push-full :
    (p : Parser) (b : ℕ) → p.count ≡ ring_size → ring_push p b ≡ ring_push (ring_consume p 1) b
unfolding ring_push ring_consume
ring_push-full p b full =
    ap
      (λ n. record p {
        ring = set p.ring p.head b;
        head = add_size p.head 1 % ring_size;
        count = n;
      })
      (ground (arith, full))

-- With an intact ring that holds 4096 bytes `ring_push` loses the oldest byte and appends the new one,
-- and the ring stays intact and full.
pub contents-ring_push_full :
    (p : Parser) (b : ℕ)
    → IsRing p
    → b < 256
    → p.count ≡ ring_size
    → (contents (ring_push p b) ≡ drop 1 (contents p) ++ (b ∷ []))
      × IsRing (ring_push p b)
      × ((ring_push p b).count ≡ ring_size)
contents-ring_push_full p b v small full =
    let one : (ring_consume p 1).count ≡ p.count - 1 =
      count-ring_consume p 1 (omega (arith, full)) in
    (
      ap contents (ring_push-full p b full)
          ∙ contents-ring_push (ring_consume p 1) b (ring_consume-IsRing p 1 v)
              (omega (arith, one, full))
          ∙ ap (λ l. l ++ (b ∷ [])) (contents-ring_consume p 1 v (omega (arith, full))),
      ring_push-IsRing p b small v,
      (unfold ring_push in ground (arith, full)),
    )
