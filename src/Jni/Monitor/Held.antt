-- ===== src/Jni/Monitor/Held.antt =====
-- Whether there is a context, before and after each native function.
use rc_monitor.Base.{
  ℕ, suc, ◌+◌, ◌≡◌, refl, sym, ap, ◌∙◌, List, Option, none, some, Bool, true, false, arith,
  if◌then◌else◌, zero,
}
use rc_monitor.Base.Int.{ℤ, pos, negsuc, leb_ℤ}
use rc_monitor.Parser.{Parser, create}
use rc_monitor.State.{RcState}
use rc_monitor.Jni.{
  Context, Bridge, init_parser, init_context, init_method, init_class, init_once, feed_done,
  feed_elements, feed_array, feed_parser, feed_context, direct_done, direct_elements, direct_array,
  direct_context, reset_parser, reset_context, destroy_context,
}
use rc_monitor.Jni.Vm.{Machine, Ref, held}

abbrev pub num : Bool → ℕ
num true = 1
num false = 0

module _ {W : Type 0} (vm : Machine W) where
  init_parser-held :
      (mid : Ref) (ref : Option Ref) (w : W) (o : Option Parser)
      → held (init_parser vm mid ref w o).1.ctx ≡ num (init_parser vm mid ref w o).0
  unfolding init_parser
  init_parser-held mid ref w none = refl
  init_parser-held mid ref w (some p) = refl

  init_method-held :
      (allocated_ctx allocated_parser : Bool) (listener : Ref) (o : Option Ref × W)
      → held (init_method vm allocated_ctx allocated_parser listener o).1.ctx
        ≡ num (init_method vm allocated_ctx allocated_parser listener o).0
  unfolding init_method init_context
  init_method-held allocated_ctx allocated_parser listener (none, w) = refl
  init_method-held false allocated_parser listener (some mid, w) = refl
  init_method-held true allocated_parser listener (some mid, w) =
      init_parser-held mid (vm.new_global_ref listener w).0 (vm.new_global_ref listener w).1
        (create true allocated_parser)

  init_class-held :
      (allocated_ctx allocated_parser : Bool) (listener : Ref) (o : Option Ref × W)
      → held (init_class vm allocated_ctx allocated_parser listener o).1.ctx
        ≡ num (init_class vm allocated_ctx allocated_parser listener o).0
  unfolding init_class
  init_class-held allocated_ctx allocated_parser listener (none, w) = refl
  init_class-held allocated_ctx allocated_parser listener (some cls, w) =
      init_method-held allocated_ctx allocated_parser listener (vm.get_method_id cls w)

  -- `nativeInit` succeeds only where there was no context, and then there is one.
  pub native_init-held :
      (allocated_ctx allocated_parser : Bool) (listener : Ref) (b : Bridge W) (o : Option Context)
      → b.ctx ≡ o
      → held (init_once vm allocated_ctx allocated_parser listener b o).1.ctx
        ≡ held b.ctx + num (init_once vm allocated_ctx allocated_parser listener b o).0
  unfolding init_once
  native_init-held allocated_ctx allocated_parser listener b none e = omega (
    arith,
    ap (held {A = Context}) e,
    init_class-held allocated_ctx allocated_parser listener (vm.get_object_class listener b.world),
  )
  native_init-held allocated_ctx allocated_parser listener b (some c) e = omega arith

  pub result_held :
      (n k : ℤ) (b b2 : Bridge W)
      → ◌≡◌ {A = Option (ℤ × Bridge W)} (some (n, b)) (some (k, b2))
      → held b2.ctx ≡ held b.ctx
  result_held n k b b2 e = let same : b ≡ b2 = cc in ap (λ x. held x.ctx) (sym same)

  feed_done-held :
      (c : Context) (a : Ref) (w : W) (k : ℤ) (b2 : Bridge W)
      (o : Option (ℕ × List RcState × Option Parser))
      → feed_done vm c a w o ≡ some (k, b2)
      → held b2.ctx ≡ 1
  unfolding feed_done
  feed_done-held c a w k b2 none e = cc
  feed_done-held c a w k b2 (some (n, calls, p)) e = result_held _ k _ b2 e

  feed_elements-held :
      (c : Context) (p : Parser) (a : Ref) (n : ℕ) (k : ℤ) (b2 : Bridge W) (o : Option (List ℕ) × W)
      → feed_elements vm c p a n o ≡ some (k, b2)
      → held b2.ctx ≡ 1
  unfolding feed_elements
  feed_elements-held c p a n k b2 (none, w) e = result_held _ k _ b2 e
  feed_elements-held c p a n k b2 (some buf, w) e = feed_done-held c a w k b2 _ e

  feed_test-held :
      (b b2 : Bridge W) (k : ℤ) (t : Bool) (r : Option (ℤ × Bridge W))
      → (r ≡ some (k, b2) → held b2.ctx ≡ held b.ctx)
      → (if t then some (pos 0, b) else r) ≡ some (k, b2)
      → held b2.ctx ≡ held b.ctx
  feed_test-held b b2 k true r f e = result_held _ k _ b2 e
  feed_test-held b b2 k false r f e = f e

  feed_array-held :
      (data_ref : Option Ref) (n k : ℤ) (b b2 : Bridge W) (c : Context) (p : Parser)
      → b.ctx ≡ some c
      → feed_array vm n b c p data_ref ≡ some (k, b2)
      → held b2.ctx ≡ held b.ctx
  unfolding feed_array
  feed_array-held none n k b b2 c p at e = feed_test-held b b2 k true none (λ x. cc) e
  feed_array-held (some a) n k b b2 c p at e =
      feed_test-held b b2 k (leb_ℤ n (pos 0)) _
        (λ x.
          feed_elements-held c p a _ k b2 (vm.get_elements a b.world) x
          ∙ sym (ap (held {A = Context}) at))
        e

  feed_parser-held :
      (data_ref : Option Ref) (n k : ℤ) (b b2 : Bridge W) (c : Context) (o : Option Parser)
      → b.ctx ≡ some c
      → feed_parser vm data_ref n b c o ≡ some (k, b2)
      → held b2.ctx ≡ held b.ctx
  unfolding feed_parser
  feed_parser-held data_ref n k b b2 c none at e = feed_test-held b b2 k true none (λ x. cc) e
  feed_parser-held data_ref n k b b2 c (some p) at e = feed_array-held data_ref n k b b2 c p at e

  pub native_feed-held :
      (data_ref : Option Ref) (n k : ℤ) (b b2 : Bridge W) (o : Option Context)
      → b.ctx ≡ o
      → feed_context vm data_ref n b o ≡ some (k, b2)
      → held b2.ctx ≡ held b.ctx
  unfolding feed_context
  native_feed-held data_ref n k b b2 none at e = feed_test-held b b2 k true none (λ x. cc) e
  native_feed-held data_ref n k b b2 (some c) at e =
      feed_parser-held data_ref n k b b2 c c.parser at e

  direct_done-held :
      (c : Context) (w : W) (r : ℤ × Option RcState) → held (direct_done vm c w r).1.ctx ≡ 1
  unfolding direct_done
  direct_done-held c w (pos zero, some s) = refl
  direct_done-held c w (pos zero, none) = refl
  direct_done-held c w (pos (suc n), out) = refl
  direct_done-held c w (negsuc n, out) = refl

  direct_elements-held :
      (c : Context) (a : Ref) (n : ℕ) (o : Option (List ℕ) × W)
      → held (direct_elements vm c a n o).1.ctx ≡ 1
  unfolding direct_elements
  direct_elements-held c a n (none, w) = refl
  direct_elements-held c a n (some buf, w) = direct_done-held c (vm.release_elements a w) _

  direct_test-held :
      (b : Bridge W) (t : Bool) (r : ℤ × Bridge W)
      → held r.1.ctx ≡ held b.ctx
      → held (if t then (negsuc 0, b) else r).1.ctx ≡ held b.ctx
  direct_test-held b true r e = refl
  direct_test-held b false r e = e

  pub native_feed_direct-held :
      (payload : Option Ref) (n : ℤ) (b : Bridge W) (o : Option Context)
      → b.ctx ≡ o
      → held (direct_context vm payload n b o).1.ctx ≡ held b.ctx
  unfolding direct_context direct_array
  native_feed_direct-held payload n b none e = refl
  native_feed_direct-held none n b (some c) e = refl
  native_feed_direct-held (some a) n b (some c) e =
      direct_test-held b (leb_ℤ n (pos 0)) _
        (direct_elements-held c a _ (vm.get_elements a b.world) ∙ sym (ap (held {A = Context}) e))

  pub native_reset-held :
      (b : Bridge W) (o : Option Context) → b.ctx ≡ o → held (reset_context vm b o).ctx ≡ held b.ctx
  unfolding reset_context reset_parser
  native_reset-held b none e = refl
  native_reset-held b (some c) e = by_parser c.parser
    where
      by_parser : (q : Option Parser) → held (reset_parser vm b c q).ctx ≡ held b.ctx
      by_parser none = refl
      by_parser (some p) = sym (ap (held {A = Context}) e)

  pub native_destroy-held :
      (b : Bridge W) (o : Option Context) → b.ctx ≡ o → held (destroy_context vm b o).ctx ≡ 0
  unfolding destroy_context
  native_destroy-held b none e = ap (held {A = Context}) e
  native_destroy-held b (some c) e = refl
