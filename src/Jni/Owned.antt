-- ===== src/Jni/Owned.antt =====
-- What the bridge owns of the Java machine: `nativeInit` takes a reference to the listener or leaves
-- everything as it was, and `nativeDestroy` gives it back.
use rc_monitor.Base.{
  ℕ, ◌+◌, ◌≡◌, refl, sym, ap, ◌∙◌, subst, List, Option, none, some, Bool, true, false, arith,
}
use rc_monitor.Parser.{Parser, create}
use rc_monitor.Parser.Decode.{IsIdle}
use rc_monitor.Parser.Feed.{fresh-IsIdle}
use rc_monitor.Jni.{
  Context, Bridge, init_parser, init_context, init_method, init_class, init_once, native_init,
  destroy_listener, destroy_context, native_destroy,
}
use rc_monitor.Jni.Vm.{Machine, Ref, View, Documented, held}
use rc_monitor.Jni.Callback.{Kept}
use rc_monitor.Jni.Feed.{Ready}

-- What `g_ctx` is between calls, and how many global references there are then: nothing is set up, or
-- there is a context with a parser between calls, which may own one reference, to the listener.
pub data Holds {W : Type 0} (see : W → View) (g : ℕ) (b : Bridge W) : Type 0 where
  closed : b.ctx ≡ none → (see b.world).globals ≡ g → Holds see g b
  opened :
      (c : Context) (p : Parser)
      → Ready b c p
      → (see b.world).globals ≡ g + held c.listener_ref
      → Holds see g b

-- The invariant, from a view on: the thread is attached or not as it was, and no copy of an array is
-- held.
pub record IsBridge {W : Type 0} (see : W → View) (v : View) (b : Bridge W) : Type 0 where
  pub attached : (see b.world).attached ≡ v.attached
  pub copies : (see b.world).copies ≡ v.copies
  pub holds : Holds see v.globals b

-- A bridge that `nativeInit` has not set up.
unfoldable pub unset : {W : Type 0} → W → Bridge W
unset w = record { ctx = none; world = w }

module _ {W : Type 0} (vm : Machine W) (see : W → View) (bytes_of : Ref → W → List ℕ)
    (doc : Documented vm see bytes_of) where
  -- `nativeInit` from each of its tests on, where nothing is set up.
  init_parser-IsBridge :
      (v : View) (mid : Ref) (ref : Option Ref) (w : W) (o : Option Parser)
      → (see w).attached ≡ v.attached
      → (see w).copies ≡ v.copies
      → (see w).globals ≡ v.globals + held ref
      → ((p : Parser) → o ≡ some p → IsIdle p)
      → IsBridge see v (init_parser vm mid ref w o).1
  unfolding init_parser
  init_parser-IsBridge v mid ref w none at cp gl idle = record {
    attached = ap (λ x. x.attached) (doc.delete_global_lem ref w) ∙ at;
    copies = ap (λ x. x.copies) (doc.delete_global_lem ref w) ∙ cp;
    holds = closed refl (omega (arith, ap (λ x. x.globals) (doc.delete_global_lem ref w), gl));
  }
  init_parser-IsBridge v mid ref w (some p) at cp gl idle = record {
    attached = at;
    copies = cp;
    holds =
        opened (record { parser = some p; listener_ref = ref; on_state_mid = mid }) p
          (record { context = refl; parser = refl; idle = idle p refl }) gl;
  }

  create-IsIdle :
      (callback allocated : Bool) (p : Parser) → create callback allocated ≡ some p → IsIdle p
  unfolding create
  create-IsIdle false allocated p e = cc
  create-IsIdle true false p e = cc
  create-IsIdle true true p e = subst IsIdle (cc) fresh-IsIdle

  pub unset-IsBridge : (v : View) (w : W) → Kept v (see w) → IsBridge see v (unset w)
  unfolding unset
  unset-IsBridge v w h = record {
    attached = h.attached;
    copies = h.copies;
    holds = closed refl h.globals;
  }

  init_context-IsBridge :
      (v : View) (allocated_ctx allocated_parser : Bool) (listener mid : Ref) (w : W)
      → Kept v (see w)
      → IsBridge see v (init_context vm allocated_ctx allocated_parser listener mid w).1
  unfolding init_context unset
  init_context-IsBridge v false allocated_parser listener mid w h = unset-IsBridge v w h
  init_context-IsBridge v true allocated_parser listener mid w h =
      let new = doc.new_global_lem listener w in
      init_parser-IsBridge v mid (vm.new_global_ref listener w).0 (vm.new_global_ref listener w).1
        (create true allocated_parser) (ap (λ x. x.attached) new ∙ h.attached)
        (ap (λ x. x.copies) new ∙ h.copies) (omega (arith, ap (λ x. x.globals) new, h.globals))
        (create-IsIdle true allocated_parser)

  init_method-IsBridge :
      (v : View) (allocated_ctx allocated_parser : Bool) (listener : Ref) (o : Option Ref × W)
      → Kept v (see o.1)
      → IsBridge see v (init_method vm allocated_ctx allocated_parser listener o).1
  unfolding init_method unset
  init_method-IsBridge v allocated_ctx allocated_parser listener (none, w) h = unset-IsBridge v w h
  init_method-IsBridge v allocated_ctx allocated_parser listener (some mid, w) h =
      init_context-IsBridge v allocated_ctx allocated_parser listener mid w h

  init_class-IsBridge :
      (v : View) (allocated_ctx allocated_parser : Bool) (listener : Ref) (o : Option Ref × W)
      → Kept v (see o.1)
      → IsBridge see v (init_class vm allocated_ctx allocated_parser listener o).1
  unfolding init_class unset
  init_class-IsBridge v allocated_ctx allocated_parser listener (none, w) h = unset-IsBridge v w h
  init_class-IsBridge v allocated_ctx allocated_parser listener (some cls, w) h =
      let found = doc.method_lem cls w in
      init_method-IsBridge v allocated_ctx allocated_parser listener (vm.get_method_id cls w)
        (record {
          attached = ap (λ x. x.attached) found ∙ h.attached;
          globals = ap (λ x. x.globals) found ∙ h.globals;
          copies = ap (λ x. x.copies) found ∙ h.copies;
        })

  pub native_init-IsBridge :
      (v : View) (allocated_ctx allocated_parser : Bool) (listener : Ref) (b : Bridge W)
      → IsBridge see v b
      → IsBridge see v (native_init vm allocated_ctx allocated_parser listener b).1
  unfolding native_init init_once
  native_init-IsBridge v allocated_ctx allocated_parser listener b h = elim h.holds [
    | closed e gl ↦
        let looked = doc.class_lem listener b.world in
        subst (λ o. IsBridge see v (init_once vm allocated_ctx allocated_parser listener b o).1)
          (sym e)
          (init_class-IsBridge v allocated_ctx allocated_parser listener
            (vm.get_object_class listener b.world)
            (record {
              attached = ap (λ x. x.attached) looked ∙ h.attached;
              globals = ap (λ x. x.globals) looked ∙ gl;
              copies = ap (λ x. x.copies) looked ∙ h.copies;
            }))
    | opened c p ready gl ↦
        subst (λ o. IsBridge see v (init_once vm allocated_ctx allocated_parser listener b o).1)
          (sym ready.context) h
  ]

  listener_given_back :
      (v : View) (w : W) (ref : Option Ref)
      → (see w).attached ≡ v.attached
      → (see w).copies ≡ v.copies
      → (see w).globals ≡ v.globals + held ref
      → Kept v (see (destroy_listener vm w ref))
  unfolding destroy_listener
  listener_given_back v w none at cp gl = record {
    attached = at;
    globals = omega (arith, gl);
    copies = cp;
  }
  listener_given_back v w (some ref) at cp gl =
      let gone = doc.delete_global_lem (some ref) w in
      record {
        attached = ap (λ x. x.attached) gone ∙ at;
        globals = omega (arith, ap (λ x. x.globals) gone, gl);
        copies = ap (λ x. x.copies) gone ∙ cp;
      }

  -- `nativeDestroy` clears `g_ctx` and gives the reference back.
  pub native_destroy-Kept :
      (v : View) (b : Bridge W)
      → IsBridge see v b
      → ((native_destroy vm b).ctx ≡ none) × Kept v (see (native_destroy vm b).world)
  unfolding native_destroy destroy_context
  native_destroy-Kept v b h = elim h.holds [
    | closed none_set gl ↦
        subst (λ x. (x.ctx ≡ none) × Kept v (see x.world))
          (sym (ap (destroy_context vm b) none_set))
          (none_set, record { attached = h.attached; globals = gl; copies = h.copies })
    | opened c p ready gl ↦
        subst (λ x. (x.ctx ≡ none) × Kept v (see x.world))
          (sym (ap (destroy_context vm b) ready.context))
          (refl, listener_given_back v b.world c.listener_ref h.attached h.copies gl)
  ]
