-- ===== src/Jni/Monitor/Count.antt =====
-- As many `RcMonitor` objects are initialized as there are contexts behind them: none or one.
use rc_monitor.Base.{
  ℕ, ◌+◌, ◌≤◌, ◌≡◌, refl, sym, ap, ◌∙◌, List, [], ◌∷◌, ◌++◌, Option, none, some, Bool, true, false,
  arith,
}
use rc_monitor.Base.Int.{ℤ, pos}
use rc_monitor.Jni.{
  Context, Bridge, native_init, native_feed, native_feed_direct, native_reset, native_destroy,
}
use rc_monitor.Jni.Vm.{Machine, Ref, held}
use rc_monitor.Jni.Owned.{unset}
use rc_monitor.Jni.Monitor.{
  Monitors, monitor_init, monitor_feed, monitor_feed_direct, monitor_reset, monitor_destroy, Step,
  new_object, init_call, feed_call, direct_call, reset_call, destroy_call, Reach, here, next,
}
use rc_monitor.Jni.Monitor.Held.{
  num, native_init-held, result_held, native_feed-held, native_feed_direct-held, native_reset-held,
  native_destroy-held,
}

unfoldable pub count : List Bool → ℕ
count [] = 0
count (b ∷ bs) = num b + count bs

count-append : (xs ys : List Bool) → count (xs ++ ys) ≡ count xs + count ys
unfolding count
count-append [] ys = omega arith
count-append (x ∷ xs) ys = omega (arith, count-append xs ys)

-- One flag among the others.
count-flag : (xs ys : List Bool) (b : Bool) → count (xs ++ (b ∷ ys)) ≡ count xs + count ys + num b
unfolding count
count-flag xs ys b = omega (arith, count-append xs (b ∷ ys))

module _ {W : Type 0} (vm : Machine W) where
  init_flag :
      (allocated_ctx allocated_parser flag : Bool) (listener : Ref) (b : Bridge W) (n : ℕ)
      → n + num flag ≡ held b.ctx
      → n + num (monitor_init vm allocated_ctx allocated_parser listener flag b).1
        ≡ held (monitor_init vm allocated_ctx allocated_parser listener flag b).2.ctx
  unfolding monitor_init native_init
  init_flag allocated_ctx allocated_parser true listener b n h = h
  init_flag allocated_ctx allocated_parser false listener b n h =
      omega (arith, h, native_init-held vm allocated_ctx allocated_parser listener b b.ctx refl)

  feed_flag :
      (data_ref : Option Ref) (n k : ℤ) (flag : Bool) (b b2 : Bridge W)
      → monitor_feed vm data_ref n flag b ≡ some (k, b2)
      → held b2.ctx ≡ held b.ctx
  unfolding monitor_feed native_feed
  feed_flag data_ref n k false b b2 e = result_held vm (pos 0) k b b2 e
  feed_flag data_ref n k true b b2 e = native_feed-held vm data_ref n k b b2 b.ctx refl e

  direct_flag :
      (payload : Option Ref) (n : ℤ) (flag : Bool) (b : Bridge W)
      → held (monitor_feed_direct vm payload n flag b).1.ctx ≡ held b.ctx
  unfolding monitor_feed_direct native_feed_direct
  direct_flag payload n false b = refl
  direct_flag payload n true b = native_feed_direct-held vm payload n b b.ctx refl

  reset_flag : (flag : Bool) (b : Bridge W) → held (monitor_reset vm flag b).ctx ≡ held b.ctx
  unfolding monitor_reset native_reset
  reset_flag false b = refl
  reset_flag true b = native_reset-held vm b b.ctx refl

  held_max : (o : Option Context) → held o ≤ 1
  held_max none = omega arith
  held_max (some c) = omega arith

  destroy_flag :
      (flag : Bool) (b : Bridge W) (n : ℕ)
      → n + num flag ≡ held b.ctx
      → n + num (monitor_destroy vm flag b).0 ≡ held (monitor_destroy vm flag b).1.ctx
  unfolding monitor_destroy native_destroy
  destroy_flag false b n h = h
  destroy_flag true b n h = omega (arith, h, held_max b.ctx, native_destroy-held vm b b.ctx refl)

  Step-count :
      (m m2 : Monitors W)
      → Step vm m m2
      → count m.flags ≡ held m.bridge.ctx
      → count m2.flags ≡ held m2.bridge.ctx
  unfolding count
  Step-count m m2 (new_object e same) h = ap count e ∙ omega (arith, h, ap (λ b. held b.ctx) same)
  Step-count m m2 (init_call allocated_ctx allocated_parser listener xs ys flag at e same) h =
      let others = count xs + count ys in
      ap count e
      ∙ count-flag xs ys _
      ∙ init_flag allocated_ctx allocated_parser flag listener m.bridge others
          (sym (count-flag xs ys flag) ∙ ap count (sym at) ∙ h)
      ∙ ap (λ b. held b.ctx) (sym same)
  Step-count m m2 (feed_call data_ref n decoded xs ys flag at e fed) h =
      ap count e ∙ h ∙ sym (feed_flag data_ref n decoded flag m.bridge m2.bridge fed)
  Step-count m m2 (direct_call payload n xs ys flag at e same) h =
      ap count e ∙ h ∙ sym (direct_flag payload n flag m.bridge) ∙ ap (λ b. held b.ctx) (sym same)
  Step-count m m2 (reset_call xs ys flag at e same) h =
      ap count e ∙ h ∙ sym (reset_flag flag m.bridge) ∙ ap (λ b. held b.ctx) (sym same)
  Step-count m m2 (destroy_call xs ys flag at e same) h =
      let others = count xs + count ys in
      ap count e
      ∙ count-flag xs ys _
      ∙ destroy_flag flag m.bridge others (sym (count-flag xs ys flag) ∙ ap count (sym at) ∙ h)
      ∙ ap (λ b. held b.ctx) (sym same)

  -- Whatever `RcMonitor` objects were made since the library was loaded, and whatever their methods were
  -- called with, in any order, as many of them are initialized as there are contexts behind them, and
  -- that is none or one.
  pub count_initialized :
      (w : W) (m : Monitors W)
      → Reach vm (record { flags = []; bridge = unset w }) m
      → (count m.flags ≡ held m.bridge.ctx) × (count m.flags ≤ 1)
  unfolding unset count
  count_initialized w m r = let h = go r in (h, omega (arith, h, held_max m.bridge.ctx))
    where
      go :
          {m : Monitors W}
          → Reach vm (record { flags = []; bridge = unset w }) m
          → count m.flags ≡ held m.bridge.ctx
      go here = refl
      go (next {m1} {m2} r s) = Step-count m1 m2 s (go r)
