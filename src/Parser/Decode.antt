-- ===== src/Parser/Decode.antt =====
-- The loop of `try_decode_frame` and the loop over its calls end, and what they find in the queue is
-- what `Scan` states.
use rc_monitor.Base.{ℕ, zero, suc, ◌+◌, ◌<◌, ◌≤◌, ◌≡◌, refl, sym, ap, ◌∙◌, subst, arith, inl, inr}
use rc_monitor.Base.{
  List, [], ◌∷◌, ◌++◌, take, drop, length, length-drop, length-take, Option, some, append_assoc,
  append-nil,
}
use rc_monitor.State.{RcState}
use rc_monitor.Base.{Bool-cases, ◌==◌, ◌≢◌}
use rc_monitor.Scan.{front, incomplete, skip, Scans, stop, pass, found}
use rc_monitor.Scan.Laws.{front_empty, front-skip, front-frame, Scans-rest}
use rc_monitor.Parser.{
  Parser, Ret, need_more, other_frame, push_frame, deliver, search_payload, Round, again, return,
  round_of, try_decode, try_decode_frame, Fed, drain,
}
use rc_monitor.Parser.Ring.{contents, length-contents}
use rc_monitor.Parser.Valid.{IsValid}
use rc_monitor.Parser.Step.{Follows, waits, skips, accepts, round-Follows}

-- The callback's states among the outcomes of frames.
unfoldable pub states_of : List Ret → List RcState
states_of [] = []
states_of (push_frame s ∷ rs) = s ∷ states_of rs
states_of (need_more ∷ rs) = states_of rs
states_of (other_frame ∷ rs) = states_of rs

-- What the frames of a stream lead to, one by one.
unfoldable pub outcomes : List (List ℕ) → List Ret
outcomes [] = []
outcomes (f ∷ fs) = deliver f (length f) ∷ outcomes fs

-- The states that the callback is given for a list of frames, in order.
unfoldable pub delivered : List (List ℕ) → List RcState
delivered fs = states_of (outcomes fs)

-- Between calls a parser holds the beginning of at most one frame.
pub record IsIdle (p : Parser) : Type 0 where
  pub valid : IsValid p
  pub waiting : front (contents p) ≡ incomplete

-- What `try_decode_frame` makes of a queue `xs`: it finds no frame in it, or it takes the first one,
-- `f`, and whatever the rest divides into stands behind it.
pub data Decoded (xs : List ℕ) : Ret → Parser → Type 0 where
  exhausted : {p : Parser} → IsValid p → Scans xs [] (contents p) → Decoded xs need_more p
  framed :
      {r : Ret} {p : Parser} (f : List ℕ)
      → IsValid p
      → r ≡ deliver f (length f)
      → length (contents p) < length xs
      → ((fs : List (List ℕ)) (rest : List ℕ) → Scans (contents p) fs rest → Scans xs (f ∷ fs) rest)
      → Decoded xs r p

-- Bytes skipped in front change nothing in what follows.
Decoded-skip :
    {xs : List ℕ} (n : ℕ) {r : Ret} {p : Parser}
    → front xs ≡ skip n
    → Decoded (drop n xs) r p
    → Decoded xs r p
Decoded-skip n e (exhausted v t) = exhausted v (pass n e t)
Decoded-skip {xs} n e (framed f v d lt t) =
    framed f v d (omega (arith, length-drop n xs)) (λ fs rest u. pass n e (t fs rest u))

-- The outcome of a round, where the next rounds do as they should.
by_round :
    (fuel : ℕ) (xs : List ℕ)
    → ((q : Parser)
        → IsValid q
        → q.count < fuel
        → (r : Ret) × (p : Parser) × (try_decode fuel q ≡ some (r, p)) × Decoded (contents q) r p)
    → length xs ≤ fuel
    → (round : Round) → Follows xs round
    → (r : Ret) × (p : Parser) × (◌≡◌ {A = Option (Ret × Parser)}
        (elim round [ again q ↦ try_decode fuel q | return r p ↦ some (r, p) ])
        (some (r, p)))
      × Decoded xs r p
by_round fuel xs next h (return r p) (waits e c v) =
    (need_more, p, refl, exhausted v (subst (Scans xs []) (sym c) (stop e)))
by_round fuel xs next h (return r p) (accepts n e c v d) = (
  r,
  p,
  refl,
  framed (take n xs) v
      (d ∙ ap (deliver (take n xs)) (omega (arith, length-take n xs, (front-frame xs e).within)))
      (omega (arith, ap length c, length-drop n xs, front-frame xs e))
      (λ fs rest u. found n e (subst (λ l. Scans l fs rest) c u)),
)
by_round fuel xs next h (again q) (skips n e c v) =
    let less : q.count < fuel =
      omega (arith, ap length c, length-drop n xs, length-contents q, front-skip xs e) in
    let (r, p, eq, dec) = next q v less in
    (r, p, eq, Decoded-skip n e (subst (λ l. Decoded l r p) c dec))

-- `count + 1` rounds are enough.
try_decode_lem :
    (fuel : ℕ) (q : Parser)
    → IsValid q
    → q.count < fuel
    → (r : Ret) × (p : Parser) × (try_decode fuel q ≡ some (r, p)) × Decoded (contents q) r p
unfolding try_decode
try_decode_lem zero q v h = absurd (omega arith)
try_decode_lem (suc fuel) q v h = elim (Bool-cases (q.count == 0)) [
  | inl empty ↦ (
    need_more,
    q,
    rw empty,
    exhausted v (stop (front_empty (contents q) (ground (arith, length-contents q)))),
  )
  | inr more ↦
      let (r, p, e, d) =
        by_round fuel (contents q) (try_decode_lem fuel) (omega (arith, length-contents q))
          (round_of q.state q) (round-Follows q v (ground arith)) in
      (r, p, rw more e, d)
]

-- On a valid parser `try_decode_frame` returns. It finds no frame in the queue, returns -1 and keeps
-- what may still become one; or it takes the first frame, returns what that leads to, and whatever the
-- rest divides into stands behind that frame.
pub try_decode_frame_lem :
    (q : Parser)
    → IsValid q
    → (r : Ret) × (p : Parser) × (try_decode_frame q ≡ some (r, p)) × Decoded (contents q) r p
unfolding try_decode_frame
try_decode_frame_lem q v = try_decode_lem (suc q.count) q v (omega arith)

-- What the loop over `try_decode_frame` has done when it ends.
pub record Drained (f : Fed) (xs : List ℕ) (fs : List (List ℕ)) (g : Fed) : Type 0 where
  pub scans : Scans xs fs (contents g.parser)
  pub idle : IsIdle g.parser
  pub calls : g.calls ≡ f.calls ++ delivered fs
  pub counter : g.decoded ≡ f.decoded + length (delivered fs)

pub delivered_other :
    (f : List ℕ) (fs : List (List ℕ))
    → other_frame ≡ deliver f (length f)
    → delivered (f ∷ fs) ≡ delivered fs
unfolding delivered outcomes states_of
delivered_other f fs e = ap (λ r. states_of (r ∷ outcomes fs)) (sym e)

pub delivered_push :
    (f : List ℕ) (fs : List (List ℕ)) (s : RcState)
    → push_frame s ≡ deliver f (length f)
    → delivered (f ∷ fs) ≡ s ∷ delivered fs
unfolding delivered outcomes states_of
delivered_push f fs s e = ap (λ r. states_of (r ∷ outcomes fs)) (sym e)

search_payload-ne-need_more :
    (k : ℕ) (f : List ℕ) (n off : ℕ) → search_payload k f n off ≢ need_more
unfolding search_payload
search_payload-ne-need_more zero f n off = λ e. cc
search_payload-ne-need_more (suc k) f n off =
    ground (arith, search_payload-ne-need_more k f n (off + 1))

-- A frame leads to 0 or 1, never to -1.
deliver-ne-need_more : (f : List ℕ) (n : ℕ) → deliver f n ≢ need_more
unfolding deliver
deliver-ne-need_more f n = ground (arith, search_payload-ne-need_more 5 f n 8)

module _ (fuel : ℕ) (f : Fed)
    (next : (g : Fed)
      → IsValid g.parser
      → g.parser.count < fuel
      → (fs : List (List ℕ)) × (h : Fed) × (drain fuel g ≡ some h)
        × Drained g (contents g.parser) fs h) where
  -- One more call of `try_decode_frame`, and the calls after it.
  drain_next :
      (r : Ret) (p : Parser)
      → f.parser.count ≤ fuel
      → try_decode_frame f.parser ≡ some (r, p)
      → Decoded (contents f.parser) r p
      → (fs : List (List ℕ)) × (h : Fed) × (drain (suc fuel) f ≡ some h)
        × Drained f (contents f.parser) fs h
  unfolding drain delivered outcomes states_of
  drain_next need_more p le e (exhausted v t) = (
    [],
    record f { parser = p },
    rw (e, drain),
    record {
      scans = t;
      idle = record { valid = v; waiting = Scans-rest t };
      calls = sym (append-nil f.calls);
      counter = omega arith;
    },
  )
  drain_next need_more p le e (framed fr v d lt t) =
      absurd (deliver-ne-need_more fr (length fr) (sym d))
  drain_next other_frame p le e (framed fr v d lt t) =
      let (fs, h, eq, done) =
        next (record f { decoded = f.decoded + 0; parser = p }) v
          (omega (arith, length-contents p, length-contents f.parser)) in
      (
        fr ∷ fs,
        h,
        rw (e, drain) eq,
        record {
          scans = t fs (contents h.parser) done.scans;
          idle = done.idle;
          calls = done.calls ∙ ap (λ l. f.calls ++ l) (sym (delivered_other fr fs d));
          counter = omega (arith, done.counter, ap length (delivered_other fr fs d));
        },
      )
  drain_next (push_frame s) p le e (framed fr v d lt t) =
      let (fs, h, eq, done) =
        next (record { decoded = f.decoded + 1; calls = f.calls ++ (s ∷ []); parser = p }) v
          (omega (arith, length-contents p, length-contents f.parser)) in
      (
        fr ∷ fs,
        h,
        rw (e, drain) eq,
        record {
          scans = t fs (contents h.parser) done.scans;
          idle = done.idle;
          calls =
              done.calls
              ∙ append_assoc f.calls (s ∷ []) (delivered fs)
              ∙ ap (λ l. f.calls ++ l) (sym (delivered_push fr fs s d));
          counter = omega (arith, done.counter, ap length (delivered_push fr fs s d));
        },
      )

pub drain_lem :
    (fuel : ℕ) (f : Fed)
    → IsValid f.parser
    → f.parser.count < fuel
    → (fs : List (List ℕ)) × (g : Fed) × (drain fuel f ≡ some g)
      × Drained f (contents f.parser) fs g
drain_lem zero f v h = absurd (omega arith)
drain_lem (suc fuel) f v h =
    let (r, p, e, d) = try_decode_frame_lem f.parser v in
    drain_next fuel f (drain_lem fuel) r p (omega arith) e d

states_of-append : (rs ss : List Ret) → states_of (rs ++ ss) ≡ states_of rs ++ states_of ss
unfolding states_of
states_of-append [] ss = refl
states_of-append (push_frame s ∷ rs) ss = ap (λ l. s ∷ l) (states_of-append rs ss)
states_of-append (need_more ∷ rs) ss = states_of-append rs ss
states_of-append (other_frame ∷ rs) ss = states_of-append rs ss

outcomes-append : (fs gs : List (List ℕ)) → outcomes (fs ++ gs) ≡ outcomes fs ++ outcomes gs
unfolding outcomes
outcomes-append [] gs = refl
outcomes-append (f ∷ fs) gs = ap (λ l. deliver f (length f) ∷ l) (outcomes-append fs gs)

pub delivered-append : (fs gs : List (List ℕ)) → delivered (fs ++ gs) ≡ delivered fs ++ delivered gs
unfolding delivered
delivered-append fs gs =
    ap states_of (outcomes-append fs gs) ∙ states_of-append (outcomes fs) (outcomes gs)
