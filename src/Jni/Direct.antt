-- ===== src/Jni/Direct.antt =====
-- `nativeFeedDirect`: a payload that the caller has taken out of its frame.
use rc_monitor.Base.{
  ℕ, ◌+◌, ◌<◌, ◌≡◌, refl, sym, ap, ◌∙◌, subst, List, length, ◌++◌, [], ◌∷◌, Option, none, some,
  false, inl, inr, arith, min, if◌then◌else◌, Bool-cases, ltb,
}
use rc_monitor.Base.Int.{ℤ, pos, leb_ℤ}
use rc_monitor.State.{RcState}
use rc_monitor.Payload.{decode_payload, parse_payload}
use rc_monitor.Parser.{blank}
use rc_monitor.Jni.{
  Context, Bridge, callbacks, clamp_length, direct_done, direct_elements, direct_array,
  direct_context, native_feed_direct,
}
use rc_monitor.Jni.Vm.{Machine, Ref, View, Documented, held}
use rc_monitor.Jni.Callback.{Kept, calls_of, Reaches, callbacks-Kept, callbacks_reach}
use rc_monitor.Jni.Feed.{clamp_length_lem}

-- The states that a payload of `n` bytes is decoded to, one or none.
unfoldable pub decoded : ℕ → List ℕ → List RcState
decoded n bytes = if ltb n 17 then [] else decode_payload bytes ∷ []

-- The context that a call leaves, and the view of the Java machine.
pub record SameContext {W : Type 0} (see : W → View) (b : Bridge W) (c : Context) (next : Bridge W)
    : Type 0 where
  pub context : next.ctx ≡ some c
  pub kept : Kept (see b.world) (see next.world)

module _ {W : Type 0} (vm : Machine W) (see : W → View) (bytes_of : Ref → W → List ℕ)
    (doc : Documented vm see bytes_of) where
  -- The result counts the states, and the listener is called with them.
  direct_done_lem :
      (c : Context) (w : W) (bytes : List ℕ) (n : ℕ)
      → direct_done vm c w (parse_payload (some bytes) n (some blank)) ≡ (
        pos (length (decoded n bytes)),
        record { ctx = some c; world = callbacks vm (some c) (decoded n bytes) w },
      )
  unfolding decoded direct_done parse_payload callbacks
  direct_done_lem c w bytes n = elim (Bool-cases (ltb n 17)) [
    | inl e ↦ rw e refl
    | inr e ↦ rw e refl
  ]

  -- After the release of the array, whatever was decoded.
  decoded_kept :
      (b : Bridge W) (c : Context) (a : Ref) (cs : List RcState) (w : W)
      → see w
        ≡ record (see b.world) { copies = (see b.world).copies + 1; pending = (see w).pending }
      → SameContext see b c
          (record { ctx = some c; world = callbacks vm (some c) cs (vm.release_elements a w) })
  decoded_kept b c a cs w got =
      let released = doc.release_lem a w in
      let kept = callbacks-Kept vm see bytes_of doc c cs (vm.release_elements a w) in
      record {
        context = refl;
        kept = record {
          attached = kept.attached ∙ ap (λ v. v.attached) released ∙ ap (λ v. v.attached) got;
          globals = kept.globals ∙ ap (λ v. v.globals) released ∙ ap (λ v. v.globals) got;
          copies = omega (arith, ap (λ v. v.copies) released, kept.copies, ap (λ v. v.copies) got);
        };
      }

  direct_elements_kept :
      (b : Bridge W) (c : Context) (a : Ref) (n : ℕ) (o : Option (List ℕ) × W)
      → see o.1 ≡ record (see b.world) {
        copies = (see b.world).copies + held o.0;
        pending = (see o.1).pending;
      }
      → SameContext see b c (direct_elements vm c a n o).1
  unfolding direct_elements
  direct_elements_kept b c a n (none, w) got = record {
    context = refl;
    kept = record {
      attached = ap (λ v. v.attached) got;
      globals = ap (λ v. v.globals) got;
      copies = omega (arith, ap (λ v. v.copies) got);
    };
  }
  direct_elements_kept b c a n (some buf, w) got =
      rw (direct_done_lem c (vm.release_elements a w) buf n)
        (decoded_kept b c a (decoded n buf) w got)

  direct_array_kept :
      (b : Bridge W) (c : Context) (payload : Option Ref) (n : ℤ)
      → b.ctx ≡ some c
      → SameContext see b c (direct_array vm n b c payload).1
  unfolding direct_array
  direct_array_kept b c none n e = record {
    context = e;
    kept = record { attached = refl; globals = refl; copies = refl };
  }
  direct_array_kept b c (some a) n e = elim (Bool-cases (leb_ℤ n (pos 0))) [
    | inl low ↦
        rw low
          (record { context = e; kept = record { attached = refl; globals = refl; copies = refl } })
    | inr high ↦ rw high (
        direct_elements_kept b c a (clamp_length n (vm.array_length a b.world))
          (vm.get_elements a b.world) (doc.elements_lem a b.world))
  ]

  pub native_feed_direct_kept :
      (b : Bridge W) (c : Context) (payload : Option Ref) (n : ℤ)
      → b.ctx ≡ some c
      → SameContext see b c (native_feed_direct vm payload n b).1
  unfolding native_feed_direct direct_context
  native_feed_direct_kept b c payload n e =
      subst (λ x. SameContext see b c x.1) (sym (ap (direct_context vm payload n b) e))
        (direct_array_kept b c payload n e)

  direct_elements-delivers :
      (c : Context) (a r : Ref) (n : ℕ) (w0 : W) (o : Option (List ℕ) × W) (buf : List ℕ)
      → c.listener_ref ≡ some r
      → ((w : W) → Reaches vm see bytes_of doc w)
      → o.0 ≡ some buf
      → see o.1
        ≡ record (see w0) { copies = (see w0).copies + held o.0; pending = (see o.1).pending }
      → ((direct_elements vm c a n o).0 ≡ pos (length (decoded n buf)))
        × ((see (direct_elements vm c a n o).1.world).received
            ≡ (see w0).received ++ calls_of r c.on_state_mid (decoded n buf))
  unfolding direct_elements
  direct_elements-delivers c a r n w0 (none, w) buf l up e got = cc
  direct_elements-delivers c a r n w0 (some buf2, w) buf l up e got =
      let same : buf ≡ buf2 = cc in
      let done = direct_done_lem c (vm.release_elements a w) buf2 n in
      (
        ap (λ x. x.0) done ∙ ap (λ y. pos (length (decoded n y))) (sym same),
        ap (λ x. (see x.1.world).received) done
            ∙ callbacks_reach vm see bytes_of doc c r (decoded n buf2) (vm.release_elements a w) l
                up
            ∙ ap (λ v. v.received ++ calls_of r c.on_state_mid (decoded n buf2))
                (doc.release_lem a w)
            ∙ ap (λ v. v.received ++ calls_of r c.on_state_mid (decoded n buf2)) got
            ∙ ap (λ y. (see w0).received ++ calls_of r c.on_state_mid (decoded n y)) (sym same),
      )

  -- On a bridge that `nativeInit` set up, with a length above 0, an array whose elements the Java
  -- machine gives, a listener, and a thread that is attached or can be: `nativeFeedDirect` returns 1 and
  -- calls the listener once, with what the payload decodes to, if the array and the length have at least
  -- 17 bytes; otherwise it returns 0 and the listener is not called. No reference or array is left over,
  -- and the context, with the parser, stays as it is.
  pub native_feed_direct_lem :
      (b : Bridge W) (c : Context) (a r : Ref) (n : ℕ) (buf : List ℕ)
      → b.ctx ≡ some c
      → c.listener_ref ≡ some r
      → ((w : W) → Reaches vm see bytes_of doc w)
      → 0 < n
      → (vm.get_elements a b.world).0 ≡ some buf
      → (cs : List RcState) × (cs
          ≡ decoded (min n (length (bytes_of a b.world))) (bytes_of a b.world))
        × ((native_feed_direct vm (some a) (pos n) b).0 ≡ pos (length cs))
        × ((see (native_feed_direct vm (some a) (pos n) b).1.world).received
            ≡ (see b.world).received ++ calls_of r c.on_state_mid cs)
        × SameContext see b c (native_feed_direct vm (some a) (pos n) b).1
  unfolding native_feed_direct direct_context direct_array
  native_feed_direct_lem b c a r n buf e l up high got =
      let same = doc.elements-contents a b.world got in
      let low : leb_ℤ (pos n) (pos 0) ≡ false = ground arith in
      let m = min n (length buf) in
      let count : clamp_length (pos n) (vm.array_length a b.world) ≡ m =
        clamp_length_lem n (vm.array_length a b.world)
        ∙ ap (min n) (doc.length_lem a b.world ∙ ap length (sym same)) in
      let at : native_feed_direct vm (some a) (pos n) b
          ≡ direct_elements vm c a m (vm.get_elements a b.world) =
        ap (direct_context vm (some a) (pos n) b) e ∙ rw (low, count) refl in
      let sent =
        direct_elements-delivers c a r m b.world (vm.get_elements a b.world) buf l up got
          (doc.elements_lem a b.world) in
      (
        decoded m buf,
        ap (λ y. decoded (min n (length y)) y) same,
        ap (λ x. x.0) at ∙ sent.0,
        ap (λ x. (see x.1.world).received) at ∙ sent.1,
        native_feed_direct_kept b c (some a) (pos n) e,
      )
