-- ===== src/Jni/Feed.antt =====
-- `nativeFeed` and `nativeFeedDirect`: what reaches the listener is what the parser decodes.
use rc_monitor.Base.{
  ℕ, ◌+◌, ◌<◌, ◌≡◌, refl, sym, ap, ◌∙◌, subst, List, ◌++◌, length, take, Option, none, some, false,
  inl, inr, IsBytes, All-take, arith, min, Bool-cases,
}
use rc_monitor.Base.Int.{ℤ, pos, negsuc, leb_ℤ, pos_part}
use rc_monitor.State.{RcState}
use rc_monitor.Parser.{Parser, feed}
use rc_monitor.Parser.Decode.{IsIdle, delivered}
use rc_monitor.Parser.Feed.{feed_lem}
use rc_monitor.Jni.{
  Context, Bridge, callbacks, clamp_length, feed_done, feed_elements, feed_array, feed_parser,
  feed_context, native_feed,
}
use rc_monitor.Jni.Vm.{Machine, Ref, View, Documented, held}
use rc_monitor.Jni.Callback.{Kept, calls_of, Reaches, callbacks-Kept, callbacks_reach}

-- A bridge that `nativeInit` has set up, between calls.
pub record Ready {W : Type 0} (b : Bridge W) (c : Context) (p : Parser) : Type 0 where
  pub context : b.ctx ≡ some c
  pub parser : c.parser ≡ some p
  pub idle : IsIdle p

pub clamp_length_lem : (n : ℕ) (m : ℕ) → clamp_length (pos n) m ≡ min n m
unfolding clamp_length
clamp_length_lem n m = ground arith

positive : (n : ℤ) → leb_ℤ n (pos 0) ≡ false → n ≡ pos (pos_part n)
positive (pos n) h = refl
positive (negsuc n) h = ground arith

same_context :
    (c : Context) (p : Parser) → c.parser ≡ some p → some c ≡ some (record c { parser = some p })
same_context c p e = ap (λ o. some (record c { parser = o })) e

-- The bytes that `nativeFeed` reads: as many as the caller says, but no more than the array has.
abbrev pub read_bytes : ℤ → List ℕ → List ℕ
read_bytes n bytes = take (min (pos_part n) (length bytes)) bytes

-- What every call of `nativeFeed` leads to: it returns, and leaves a bridge set up as before with
-- another parser between calls, the thread as it was, and no reference or array to give back.
pub record Fed {W : Type 0} (see : W → View) (b : Bridge W) (c : Context)
    (r : Option (ℤ × Bridge W)) : Type 0 where
  pub parser : Parser
  pub decoded : ℤ
  pub next : Bridge W
  pub result : r ≡ some (decoded, next)
  pub ready : Ready next (record c { parser = some parser }) parser
  pub kept : Kept (see b.world) (see next.world)

module _ {W : Type 0} (vm : Machine W) (see : W → View) (bytes_of : Ref → W → List ℕ)
    (doc : Documented vm see bytes_of) where
  -- The part with the elements of the array, on a parser between calls.
  feed_got :
      (c : Context) (p : Parser) (a : Ref) (n : ℕ) (w0 w : W) (buf : List ℕ)
      → c.parser ≡ some p
      → IsIdle p
      → IsBytes buf
      → see w ≡ record (see w0) { copies = (see w0).copies + 1; pending = (see w).pending }
      → (cs : List RcState) × (q : Parser) × (feed (some p) (some (take n buf))
          ≡ some (length cs, cs, some q))
        × (feed_elements vm c p a n (some buf, w)
            ≡ some (
              pos (length cs),
              record {
                ctx = some (record c { parser = some q });
                world = vm.release_elements a (callbacks vm (some c) cs w);
              },
            ))
        × IsIdle q
        × Kept (see w0) (see (vm.release_elements a (callbacks vm (some c) cs w)))
  unfolding feed_elements feed_done
  feed_got c p a n w0 w buf has idle bytes got =
      let (fs, q, e, t, idle2, lt) =
        feed_lem p (take n buf) idle (All-take (λ b. b < 256) n buf bytes) in
      let cs : List RcState = delivered fs in
      let kept = callbacks-Kept vm see bytes_of doc c cs w in
      let released = doc.release_lem a (callbacks vm (some c) cs w) in
      (
        cs,
        q,
        e,
        rw (e, feed_done) refl,
        idle2,
        record {
          attached = ap (λ v. v.attached) released ∙ kept.attached ∙ ap (λ v. v.attached) got;
          globals = ap (λ v. v.globals) released ∙ kept.globals ∙ ap (λ v. v.globals) got;
          copies = omega (arith, ap (λ v. v.copies) released, kept.copies, ap (λ v. v.copies) got);
        },
      )

  -- The part with whatever `GetByteArrayElements` gives.
  feed_any :
      (b : Bridge W) (c : Context) (p : Parser) (a : Ref) (n : ℕ) (o : Option (List ℕ) × W)
      → Ready b c p
      → ((bytes : List ℕ) → o.0 ≡ some bytes → IsBytes bytes)
      → see o.1 ≡ record (see b.world) {
        copies = (see b.world).copies + held o.0;
        pending = (see o.1).pending;
      }
      → Fed see b c (feed_elements vm c p a n o)
  unfolding feed_elements
  feed_any b c p a n (none, w) ready bytes got = record {
    parser = p;
    decoded = pos 0;
    next = record { ctx = some c; world = w };
    result = refl;
    ready = record { context = same_context c p ready.parser; parser = refl; idle = ready.idle };
    kept = record {
      attached = ap (λ v. v.attached) got;
      globals = ap (λ v. v.globals) got;
      copies = omega (arith, ap (λ v. v.copies) got);
    };
  }
  feed_any b c p a n (some buf, w) ready bytes got =
      let (cs, q, e, r, idle, kept) =
        feed_got c p a n b.world w buf ready.parser ready.idle (bytes buf refl) got in
      record {
        parser = q;
        decoded = pos (length cs);
        next = record {
          ctx = some (record c { parser = some q });
          world = vm.release_elements a (callbacks vm (some c) cs w);
        };
        result = r;
        ready = record { context = refl; parser = refl; idle = idle };
        kept = kept;
      }

  -- Where `nativeFeed` returns early.
  feed_nothing :
      (b : Bridge W) (c : Context) (p : Parser) → Ready b c p → Fed see b c (some (pos 0, b))
  feed_nothing b c p ready = record {
    parser = p;
    decoded = pos 0;
    next = b;
    result = refl;
    ready = record {
      context = ready.context ∙ same_context c p ready.parser;
      parser = refl;
      idle = ready.idle;
    };
    kept = record { attached = refl; globals = refl; copies = refl };
  }

  -- `nativeFeed` past its tests of `g_ctx` and the parser.
  native_feed-feed_array :
      (b : Bridge W) (c : Context) (p : Parser) (array : Option Ref) (n : ℤ)
      → Ready b c p
      → native_feed vm array n b ≡ feed_array vm n b c p array
  unfolding native_feed feed_context feed_parser
  native_feed-feed_array b c p array n ready =
      ap (feed_context vm array n b) ready.context ∙ ap (feed_parser vm array n b c) ready.parser

  feed_array_lem :
      (b : Bridge W) (c : Context) (p : Parser) (array : Option Ref) (n : ℤ)
      → Ready b c p
      → Fed see b c (feed_array vm n b c p array)
  unfolding feed_array
  feed_array_lem b c p none n ready = feed_nothing b c p ready
  feed_array_lem b c p (some a) n ready = elim (Bool-cases (leb_ℤ n (pos 0))) [
    | inl low ↦ rw low (feed_nothing b c p ready)
    | inr high ↦ rw high (
        feed_any b c p a (clamp_length n (vm.array_length a b.world)) (vm.get_elements a b.world)
          ready
          (λ bytes e.
            subst IsBytes (sym (doc.elements-contents a b.world e))
              (doc.contents-IsBytes a b.world))
          (doc.elements_lem a b.world))
  ]

  -- A call of `nativeFeed` on a bridge that `nativeInit` set up returns, whatever its arguments and
  -- whatever the Java machine answers: the parser does not run out of rounds, the bridge stays set up,
  -- the thread stays attached or detached as it was, and no copy of an array and no global reference is
  -- left over.
  pub native_feed_total :
      (b : Bridge W) (c : Context) (p : Parser) (array : Option Ref) (n : ℤ)
      → Ready b c p
      → Fed see b c (native_feed vm array n b)
  native_feed_total b c p array n ready =
      subst (Fed see b c) (sym (native_feed-feed_array b c p array n ready))
        (feed_array_lem b c p array n ready)

  feed_elements-delivers :
      (c : Context) (p : Parser) (a r : Ref) (n : ℕ) (w0 : W) (o : Option (List ℕ) × W)
      (buf : List ℕ)
      → c.parser ≡ some p
      → IsIdle p
      → c.listener_ref ≡ some r
      → ((w : W) → Reaches vm see bytes_of doc w)
      → o.0 ≡ some buf
      → IsBytes buf
      → see o.1
        ≡ record (see w0) { copies = (see w0).copies + held o.0; pending = (see o.1).pending }
      → (cs : List RcState) × (q : Parser) × (b2 : Bridge W) × (feed (some p) (some (take n buf))
          ≡ some (length cs, cs, some q))
        × (feed_elements vm c p a n o ≡ some (pos (length cs), b2))
        × (b2.ctx ≡ some (record c { parser = some q }))
        × ((see b2.world).received ≡ (see w0).received ++ calls_of r c.on_state_mid cs)
  feed_elements-delivers c p a r n w0 (none, w) buf has idle l up e bytes got = cc
  feed_elements-delivers c p a r n w0 (some buf2, w) buf has idle l up e bytes got =
      let same : buf ≡ buf2 = cc in
      let (cs, q, f, x, idle2, kept) =
        feed_got c p a n w0 w buf2 has idle (subst IsBytes same bytes) got in
      let released = doc.release_lem a (callbacks vm (some c) cs w) in
      (
        cs,
        q,
        record {
          ctx = some (record c { parser = some q });
          world = vm.release_elements a (callbacks vm (some c) cs w);
        },
        rw same f,
        x,
        refl,
        ap (λ v. v.received) released
            ∙ callbacks_reach vm see bytes_of doc c r cs w l up
            ∙ ap (λ v. v.received ++ calls_of r c.on_state_mid cs) got,
      )

  -- What arrives: with an array whose elements the Java machine gives, a length above 0, a listener,
  -- and a thread that is attached or can be, `nativeFeed` feeds the parser the first bytes of the array,
  -- as many as asked and no more than there are; its result is the number of states that the parser
  -- calls back with, and the listener has one call more for each of them, in order.
  pub native_feed_lem :
      (b : Bridge W) (c : Context) (p : Parser) (a r : Ref) (n : ℕ) (buf : List ℕ)
      → Ready b c p
      → c.listener_ref ≡ some r
      → ((w : W) → Reaches vm see bytes_of doc w)
      → 0 < n
      → (vm.get_elements a b.world).0 ≡ some buf
      → (cs : List RcState) × (q : Parser) × (b2 : Bridge W) × (feed
            (some p)
            (some (read_bytes (pos n) (bytes_of a b.world)))
          ≡ some (length cs, cs, some q))
        × (native_feed vm (some a) (pos n) b ≡ some (pos (length cs), b2))
        × (b2.ctx ≡ some (record c { parser = some q }))
        × ((see b2.world).received ≡ (see b.world).received ++ calls_of r c.on_state_mid cs)
  unfolding feed_array
  native_feed_lem b c p a r n buf ready l up high got =
      let same = doc.elements-contents a b.world got in
      let low : leb_ℤ (pos n) (pos 0) ≡ false = ground arith in
      let count : clamp_length (pos n) (vm.array_length a b.world)
          ≡ min n (length (bytes_of a b.world)) =
        clamp_length_lem n (vm.array_length a b.world) ∙ ap (min n) (doc.length_lem a b.world) in
      rw (native_feed-feed_array b c p (some a) (pos n) ready, low, count, sym same)
        (feed_elements-delivers c p a r (min n (length buf)) b.world (vm.get_elements a b.world) buf
          ready.parser ready.idle l up got
          (subst IsBytes (sym same) (doc.contents-IsBytes a b.world)) (doc.elements_lem a b.world))
