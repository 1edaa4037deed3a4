-- ===== src/Jni/Lifecycle.antt =====
-- The native functions in any order: `g_ctx` as a state machine, and what the bridge owns of the Java
-- machine.
use rc_monitor.Base.{ℕ, ◌≡◌, refl, sym, ap, ◌∙◌, subst, List, length, Option, none, some, Bool}
use rc_monitor.Base.Int.{ℤ, pos}
use rc_monitor.Scan.Laws.{front_empty}
use rc_monitor.Parser.Ring.{contents}
use rc_monitor.Parser.Valid.{reset_lem}
use rc_monitor.Jni.{
  Bridge, native_init, feed_context, native_feed, direct_context, native_feed_direct, reset_parser,
  reset_context, native_reset, native_destroy,
}
use rc_monitor.Jni.Vm.{Machine, Ref, View, Documented}
use rc_monitor.Jni.Callback.{Kept}
use rc_monitor.Jni.Feed.{native_feed_total}
use rc_monitor.Jni.Direct.{native_feed_direct_kept}
use rc_monitor.Jni.Owned.{
  closed, opened, IsBridge, unset, unset-IsBridge, native_init-IsBridge, native_destroy-Kept,
}

module _ {W : Type 0} (vm : Machine W) (see : W → View) (bytes_of : Ref → W → List ℕ)
    (doc : Documented vm see bytes_of) where
  -- The calls that Java may make, with any arguments and any answers of the Java machine, and what the
  -- Java program does between them, which keeps its own books.
  pub data Step (b : Bridge W) (b2 : Bridge W) : Type 0 where
    init :
        (allocated_ctx allocated_parser : Bool) (listener : Ref)
        → b2 ≡ (native_init vm allocated_ctx allocated_parser listener b).1
        → Step b b2
    feed :
        (data_ref : Option Ref) (n decoded : ℤ)
        → native_feed vm data_ref n b ≡ some (decoded, b2)
        → Step b b2
    direct : (payload : Option Ref) (n : ℤ) → b2 ≡ (native_feed_direct vm payload n b).1 → Step b b2
    reset_call : b2 ≡ native_reset vm b → Step b b2
    destroy : b2 ≡ native_destroy vm b → Step b b2
    java : b2.ctx ≡ b.ctx → Kept (see b.world) (see b2.world) → Step b b2

  pub data Reach (b : Bridge W) : Bridge W → Type 0 where
    here : Reach b b
    next : {b1 b2 : Bridge W} → Reach b b1 → Step b1 b2 → Reach b b2

  native_feed-IsBridge :
      (v : View) (data_ref : Option Ref) (n decoded : ℤ) (b b2 : Bridge W)
      → IsBridge see v b
      → native_feed vm data_ref n b ≡ some (decoded, b2)
      → IsBridge see v b2
  unfolding native_feed feed_context
  native_feed-IsBridge v data_ref n decoded b b2 h e = elim h.holds [
    | closed none_set gl ↦
        let same : b ≡ b2 = cc (ap (feed_context vm data_ref n b) none_set, e) in
        subst (IsBridge see v) same h
    | opened c p ready gl ↦
        let fed = native_feed_total vm see bytes_of doc b c p data_ref n ready in
        let same : fed.next ≡ b2 = cc (fed.result, e) in
        subst (IsBridge see v) same (record {
          attached = fed.kept.attached ∙ h.attached;
          copies = fed.kept.copies ∙ h.copies;
          holds =
              opened (record c { parser = some fed.parser }) fed.parser fed.ready
                (fed.kept.globals ∙ gl);
        })
  ]

  feed_returns :
      (v : View) (b : Bridge W) (data_ref : Option Ref) (n : ℤ)
      → IsBridge see v b
      → (decoded : ℤ) × (b2 : Bridge W) × (native_feed vm data_ref n b ≡ some (decoded, b2))
  unfolding native_feed feed_context
  feed_returns v b data_ref n h = elim h.holds [
    | closed none_set gl ↦ (pos 0, b, ap (feed_context vm data_ref n b) none_set)
    | opened c p ready gl ↦
        let fed = native_feed_total vm see bytes_of doc b c p data_ref n ready in
        (fed.decoded, fed.next, fed.result)
  ]

  native_feed_direct-IsBridge :
      (v : View) (payload : Option Ref) (n : ℤ) (b : Bridge W)
      → IsBridge see v b
      → IsBridge see v (native_feed_direct vm payload n b).1
  unfolding native_feed_direct direct_context
  native_feed_direct-IsBridge v payload n b h = elim h.holds [
    | closed none_set gl ↦
        subst (λ x. IsBridge see v x.1) (sym (ap (direct_context vm payload n b) none_set)) h
    | opened c p ready gl ↦
        let same = native_feed_direct_kept vm see bytes_of doc b c payload n ready.context in
        record {
          attached = same.kept.attached ∙ h.attached;
          copies = same.kept.copies ∙ h.copies;
          holds =
              opened c p
                (record { context = same.context; parser = ready.parser; idle = ready.idle })
                (same.kept.globals ∙ gl);
        }
  ]

  native_reset-IsBridge :
      (v : View) (b : Bridge W) → IsBridge see v b → IsBridge see v (native_reset vm b)
  unfolding native_reset reset_context reset_parser
  native_reset-IsBridge v b h = elim h.holds [
    | closed none_set gl ↦ subst (IsBridge see v) (sym (ap (reset_context vm b) none_set)) h
    | opened c p ready gl ↦
        let (q, e, valid, none_left) = reset_lem p ready.idle.valid.ring_ok in
        let at : native_reset vm b ≡ record b { ctx = some (record c { parser = some q }) } =
          ap (reset_context vm b) ready.context
          ∙ ap (reset_parser vm b c) ready.parser
          ∙ ap (λ o. record b { ctx = some (record c { parser = o }) }) e in
        subst (IsBridge see v) (sym at) (record {
          attached = h.attached;
          copies = h.copies;
          holds =
              opened (record c { parser = some q }) q
                (record {
                  context = refl;
                  parser = refl;
                  idle = record {
                    valid = valid;
                    waiting = front_empty (contents q) (ap length none_left);
                  };
                })
                gl;
        })
  ]

  Step-IsBridge : (v : View) {b b2 : Bridge W} → Step b b2 → IsBridge see v b → IsBridge see v b2
  unfolding unset
  Step-IsBridge v {b} {b2} (init allocated_ctx allocated_parser listener e) h =
      subst (IsBridge see v) (sym e)
        (native_init-IsBridge vm see bytes_of doc v allocated_ctx allocated_parser listener b h)
  Step-IsBridge v {b} {b2} (feed data_ref n decoded e) h =
      native_feed-IsBridge v data_ref n decoded b b2 h e
  Step-IsBridge v {b} {b2} (direct payload n e) h =
      subst (IsBridge see v) (sym e) (native_feed_direct-IsBridge v payload n b h)
  Step-IsBridge v {b} {b2} (reset_call e) h =
      subst (IsBridge see v) (sym e) (native_reset-IsBridge v b h)
  Step-IsBridge v {b} {b2} (destroy e) h =
      let (ctx_none, kept) = native_destroy-Kept vm see bytes_of doc v b h in
      subst (IsBridge see v) (sym e) (record {
        attached = kept.attached;
        copies = kept.copies;
        holds = closed ctx_none kept.globals;
      })
  Step-IsBridge v {b} {b2} (java same kept) h = record {
    attached = kept.attached ∙ h.attached;
    copies = kept.copies ∙ h.copies;
    holds = elim h.holds [
      | closed none_set gl ↦ closed (same ∙ none_set) (kept.globals ∙ gl)
      | opened c p ready gl ↦
          opened c p
            (record { context = same ∙ ready.context; parser = ready.parser; idle = ready.idle })
            (kept.globals ∙ gl)
    ];
  }

  Reach-IsBridge : (v : View) {b b2 : Bridge W} → Reach b b2 → IsBridge see v b → IsBridge see v b2
  Reach-IsBridge v here h = h
  Reach-IsBridge v (next r s) h = Step-IsBridge v s (Reach-IsBridge v r h)

  -- Whatever calls of `nativeInit`, `nativeFeed`, `nativeFeedDirect`, `nativeReset` and `nativeDestroy`
  -- were made since the library was loaded, in any order, with any arguments and any answers of the Java
  -- machine, and whatever the Java program did between them that keeps the attachment of the thread and
  -- the numbers of arrays taken and of global references: a further call of `nativeFeed` returns; the
  -- thread is attached or detached as at first and every array is given back; and a call of
  -- `nativeDestroy` clears `g_ctx` and leaves as many global references as at first.
  pub lifecycle :
      (w : W) (b : Bridge W) (data_ref : Option Ref) (n : ℤ)
      → Reach (unset w) b
      → ((decoded : ℤ) × (b2 : Bridge W) × (native_feed vm data_ref n b ≡ some (decoded, b2)))
        × ((see b.world).attached ≡ (see w).attached)
        × ((see b.world).copies ≡ (see w).copies)
        × ((native_destroy vm b).ctx ≡ none)
        × ((see (native_destroy vm b).world).globals ≡ (see w).globals)
  lifecycle w b data_ref n r =
      let h = Reach-IsBridge (see w) r (
        unset-IsBridge vm see bytes_of doc (see w) w
          (record { attached = refl; globals = refl; copies = refl })) in
      let (gone, kept) = native_destroy-Kept vm see bytes_of doc (see w) b h in
      (feed_returns (see w) b data_ref n h, h.attached, h.copies, gone, kept.globals)
