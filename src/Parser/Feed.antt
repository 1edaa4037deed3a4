-- ===== src/Parser/Feed.antt =====
-- The loops of `try_decode_frame` and `rcm_feed` end, and what they do is the division of the stream
-- into frames that `Scan` states.
use rc_monitor.Base.{ℕ, suc, ◌+◌, ◌<◌, ◌≡◌, refl, sym, ap, ap₂, ◌∙◌, subst, arith}
use rc_monitor.Base.{
  List, [], ◌∷◌, ◌++◌, length, length-append, some, append_assoc, append-nil, IsBytes, All-append,
}
use rc_monitor.State.{RcState}
use rc_monitor.Scan.{Scans, stop}
use rc_monitor.Scan.Laws.{front_empty, front-incomplete, Scans-append, Scans-functional}
use rc_monitor.Parser.{reset, fresh, Parser, Fed, feed_byte, feed_bytes, feed, ring_push, ring_size}
use rc_monitor.Parser.Ring.{IsRing, contents, length-contents, contents-ring_push, ring_push-IsRing}
use rc_monitor.Parser.Valid.{reset_lem, fresh-IsValid, IsValid, HeaderAt, HeaderAt-append}
use rc_monitor.Parser.Decode.{
  IsIdle, Drained, drain_lem, delivered, outcomes, states_of, delivered-append,
}

-- A parser between calls has room: a byte is never lost to a full buffer.
idle-count : (p : Parser) → IsIdle p → p.count < 1024
idle-count p v = omega (arith, length-contents p, front-incomplete (contents p) v.waiting)

pub ring_push-IsValid :
    (p : Parser) (b : ℕ) → b < 256 → IsValid p → p.count < ring_size → IsValid (ring_push p b)
unfolding ring_push
ring_push-IsValid p b small v room = record {
  ring_ok = ring_push-IsRing p b small v.ring_ok;
  header = λ e.
      subst (λ l. HeaderAt l p.frame_len) (sym (contents-ring_push p b v.ring_ok room))
        (HeaderAt-append (contents p) (b ∷ []) p.frame_len (v.header e));
}

feed_byte_lem :
    (f : Fed) (b : ℕ)
    → b < 256
    → IsIdle f.parser
    → (fs : List (List ℕ)) × (g : Fed) × (feed_byte f b ≡ some g)
      × Drained f (contents f.parser ++ (b ∷ [])) fs g
unfolding feed_byte
feed_byte_lem f b small v =
    let p = ring_push f.parser b in
    let (fs, g, e, done) =
      drain_lem (suc p.count) (record f { parser = p })
        (ring_push-IsValid f.parser b small v.valid room) (omega arith) in
    (
      fs,
      g,
      e,
      record {
        scans =
            subst (λ l. Scans l fs (contents g.parser))
              (contents-ring_push f.parser b v.valid.ring_ok room) done.scans;
        idle = done.idle;
        calls = done.calls;
        counter = done.counter;
      },
    )
  where
    room : f.parser.count < ring_size
    room = omega (arith, idle-count f.parser v)

feed_bytes_lem :
    (f : Fed) (bs : List ℕ)
    → IsBytes bs
    → IsIdle f.parser
    → (fs : List (List ℕ)) × (g : Fed) × (feed_bytes f bs ≡ some g)
      × Drained f (contents f.parser ++ bs) fs g
unfolding feed_bytes
feed_bytes_lem f [] bytes v = (
  [],
  f,
  refl,
  record {
    scans = rw append-nil (stop v.waiting);
    idle = v;
    calls = unfold delivered outcomes states_of in sym (append-nil f.calls);
    counter = unfold delivered outcomes states_of in omega arith;
  },
)
feed_bytes_lem f (b ∷ bs) bytes v =
    let (fs, g, e, now) = feed_byte_lem f b bytes.0 v in
    let (gs, h, d, later) = feed_bytes_lem g bs bytes.1 now.idle in
    (
      fs ++ gs,
      h,
      rw (e, feed_bytes) d,
      record {
        scans =
            subst (λ l. Scans l (fs ++ gs) (contents h.parser))
              (append_assoc (contents f.parser) (b ∷ []) bs)
              (Scans-append bs now.scans later.scans);
        idle = later.idle;
        calls =
            later.calls
            ∙ ap (λ l. l ++ delivered gs) now.calls
            ∙ append_assoc f.calls (delivered fs) (delivered gs)
            ∙ ap (λ l. f.calls ++ l) (sym (delivered-append fs gs));
        counter = omega (
          arith,
          now.counter,
          later.counter,
          ap length (delivered-append fs gs),
          length-append (delivered fs) (delivered gs),
        );
      },
    )

-- On a parser between calls (`IsIdle`) `rcm_feed` returns, whatever bytes it is fed. The bytes that the parser held and those it is fed divide into
-- frames and a rest as `Scans` says; the callback is given the states of exactly those frames, in
-- order; the number returned is that of the calls; and the parser holds the rest, shorter than 1024
-- bytes, so that the buffer of 4096 never loses a byte.
pub feed_lem :
    (p : Parser) (bs : List ℕ)
    → IsIdle p
    → IsBytes bs
    → (fs : List (List ℕ)) × (q : Parser) × (feed (some p) (some bs)
        ≡ some (length (delivered fs), delivered fs, some q))
      × Scans (contents p ++ bs) fs (contents q)
      × IsIdle q
      × (q.count < 1024)
unfolding feed
feed_lem p bs v bytes =
    let f : Fed = record { decoded = 0; calls = []; parser = p } in
    let (fs, g, e, done) = feed_bytes_lem f bs bytes v in
    let counted : g.decoded ≡ length (delivered fs) = omega (arith, done.counter) in
    (
      fs,
      g.parser,
      rw (e, feed) (ap₂ (λ n l. some (n, l, some g.parser)) counted done.calls),
      done.scans,
      done.idle,
      idle-count g.parser done.idle,
    )

-- How the bytes are cut into calls makes no difference to a parser between calls: feeding `xs` and then `ys` makes the calls,
-- adds up to the number and leaves the queue that feeding them at once does.
pub feed_chunks :
    (p : Parser) (xs ys : List ℕ)
    → IsIdle p
    → IsBytes xs
    → IsBytes ys
    → (n : ℕ) × (m : ℕ) × (cs : List RcState) × (ds : List RcState) × (q : Parser) × (r : Parser)
      × (s : Parser) × (feed (some p) (some xs) ≡ some (n, cs, some q))
      × (feed (some q) (some ys) ≡ some (m, ds, some r))
      × (feed (some p) (some (xs ++ ys)) ≡ some (n + m, cs ++ ds, some s))
      × (contents s ≡ contents r)
feed_chunks p xs ys v bx by =
    let (fs, q, e, t, w, lt) = feed_lem p xs v bx in
    let (gs, r, d, u, w2, lt2) = feed_lem q ys w by in
    let (hs, s, c, x, w3, lt3) = feed_lem p (xs ++ ys) v (All-append (λ b. b < 256) xs ys bx by) in
    let whole : Scans (contents p ++ (xs ++ ys)) (fs ++ gs) (contents r) =
      subst (λ l. Scans l (fs ++ gs) (contents r)) (append_assoc (contents p) xs ys)
        (Scans-append ys t u) in
    let same = Scans-functional x whole in
    let split : delivered hs ≡ delivered fs ++ delivered gs =
      ap delivered same.0 ∙ delivered-append fs gs in
    (
      length (delivered fs),
      length (delivered gs),
      delivered fs,
      delivered gs,
      q,
      r,
      s,
      e,
      d,
      c
          ∙ ap₂ (λ a b. some (a, b, some s))
              (ap length split ∙ length-append (delivered fs) (delivered gs)) split,
      same.1,
    )

-- A new parser waits for the first byte.
pub fresh-IsIdle : IsIdle fresh
fresh-IsIdle = record {
  valid = fresh-IsValid.0;
  waiting = front_empty (contents fresh) (ap length fresh-IsValid.1);
}

-- Two parsers between calls that hold the same queue behave alike, wherever it stands in their rings
-- and whatever else those hold: fed the same bytes they make the same calls, return the same number
-- and hold the same queue.
pub feed-same_queue :
    (p q : Parser) (bs : List ℕ)
    → IsIdle p
    → IsIdle q
    → contents p ≡ contents q
    → IsBytes bs
    → (n : ℕ) × (cs : List RcState) × (r : Parser) × (s : Parser) × (feed (some p) (some bs)
        ≡ some (n, cs, some r))
      × (feed (some q) (some bs) ≡ some (n, cs, some s))
      × (contents r ≡ contents s)
feed-same_queue p q bs v w e bytes =
    let (fs, r, a, t, x, lt) = feed_lem p bs v bytes in
    let (gs, s, b, u, y, lu) = feed_lem q bs w bytes in
    let same = Scans-functional u (subst (λ l. Scans (l ++ bs) fs (contents r)) e t) in
    (
      length (delivered fs),
      delivered fs,
      r,
      s,
      a,
      b ∙ ap (λ l. some (length l, l, some s)) (ap delivered same.0),
      sym same.1,
    )

-- After `rcm_reset` a parser with an intact ring behaves like a new one, whatever it held and whatever
-- it had read of a frame.
pub feed-reset :
    (p : Parser) (bs : List ℕ)
    → IsRing p
    → IsBytes bs
    → (p2 : Parser) × (n : ℕ) × (cs : List RcState) × (r : Parser) × (s : Parser) × (reset (some p)
        ≡ some p2)
      × (feed (some p2) (some bs) ≡ some (n, cs, some r))
      × (feed (some fresh) (some bs) ≡ some (n, cs, some s))
      × (contents r ≡ contents s)
feed-reset p bs v bytes =
    let (q, e, w, none_left) = reset_lem p v in
    let idle : IsIdle q = record {
      valid = w;
      waiting = front_empty (contents q) (ap length none_left);
    } in
    let (n, cs, r, s, a, b, same) =
      feed-same_queue q fresh bs idle fresh-IsIdle (none_left ∙ sym fresh-IsValid.1) bytes in
    (q, n, cs, r, s, e, a, b, same)
