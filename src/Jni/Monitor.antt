-- ===== src/Jni/Monitor.antt =====
-- java/space/yasha/rcmonitor/RcMonitor.java: the objects through which Java calls the bridge. Each has
-- a flag; the context behind them is one for all.
pub mod Held
pub mod Count
mod Tests
use rc_monitor.Base.{
  ℕ, suc, ◌+◌, ◌≡◌, refl, sym, ap, ◌∙◌, subst, List, [], ◌∷◌, ◌++◌, Option, none, some, Bool, true,
  false, Bool-cases, arith,
}
use rc_monitor.Base.Int.{ℤ, pos, leb_ℤ}
use rc_monitor.Parser.{Parser, create}
use rc_monitor.Jni.{
  Context, Bridge, init_parser, init_context, init_method, init_class, init_once, native_init,
  feed_done, feed_elements, feed_array, feed_parser, feed_context, native_feed, native_feed_direct,
  direct_context, reset_parser, reset_context, native_reset, destroy_context, native_destroy,
}
use rc_monitor.Jni.Vm.{Machine, Ref, held}
use rc_monitor.Jni.Owned.{unset}

-- The objects' fields `initialized`, and what the native functions work on.
pub record Monitors (W : Type 0) : Type 0 where
  pub flags : List Bool
  pub bridge : Bridge W

module _ {W : Type 0} (vm : Machine W) where
  -- `init`: its result, the flag, and the bridge.
  unfoldable pub monitor_init : Bool → Bool → Ref → Bool → Bridge W → Bool × Bool × Bridge W
  monitor_init allocated_ctx allocated_parser listener true b = (false, true, b)
  monitor_init allocated_ctx allocated_parser listener false b =
      let (ok, b2) = native_init vm allocated_ctx allocated_parser listener b in (ok, ok, b2)

  unfoldable pub monitor_feed : Option Ref → ℤ → Bool → Bridge W → Option (ℤ × Bridge W)
  monitor_feed data_ref length false b = some (pos 0, b)
  monitor_feed data_ref length true b = native_feed vm data_ref length b

  unfoldable pub monitor_feed_direct : Option Ref → ℤ → Bool → Bridge W → ℤ × Bridge W
  monitor_feed_direct payload length false b = (pos 0, b)
  monitor_feed_direct payload length true b = native_feed_direct vm payload length b

  unfoldable pub monitor_reset : Bool → Bridge W → Bridge W
  monitor_reset false b = b
  monitor_reset true b = native_reset vm b

  unfoldable pub monitor_destroy : Bool → Bridge W → Bool × Bridge W
  monitor_destroy false b = (false, b)
  monitor_destroy true b = (false, native_destroy vm b)

  -- A new object, or a call of a method of any object, which stands between others.
  pub data Step (m : Monitors W) (m2 : Monitors W) : Type 0 where
    new_object : m2.flags ≡ false ∷ m.flags → m2.bridge ≡ m.bridge → Step m m2
    init_call :
        (allocated_ctx allocated_parser : Bool) (listener : Ref) (xs ys : List Bool) (flag : Bool)
        → m.flags ≡ xs ++ (flag ∷ ys)
        → m2.flags
          ≡ xs ++ ((monitor_init allocated_ctx allocated_parser listener flag m.bridge).1 ∷ ys)
        → m2.bridge ≡ (monitor_init allocated_ctx allocated_parser listener flag m.bridge).2
        → Step m m2
    feed_call :
        (data_ref : Option Ref) (n decoded : ℤ) (xs ys : List Bool) (flag : Bool)
        → m.flags ≡ xs ++ (flag ∷ ys)
        → m2.flags ≡ m.flags
        → monitor_feed data_ref n flag m.bridge ≡ some (decoded, m2.bridge)
        → Step m m2
    direct_call :
        (payload : Option Ref) (n : ℤ) (xs ys : List Bool) (flag : Bool)
        → m.flags ≡ xs ++ (flag ∷ ys)
        → m2.flags ≡ m.flags
        → m2.bridge ≡ (monitor_feed_direct payload n flag m.bridge).1
        → Step m m2
    reset_call :
        (xs ys : List Bool) (flag : Bool)
        → m.flags ≡ xs ++ (flag ∷ ys)
        → m2.flags ≡ m.flags
        → m2.bridge ≡ monitor_reset flag m.bridge
        → Step m m2
    destroy_call :
        (xs ys : List Bool) (flag : Bool)
        → m.flags ≡ xs ++ (flag ∷ ys)
        → m2.flags ≡ xs ++ ((monitor_destroy flag m.bridge).0 ∷ ys)
        → m2.bridge ≡ (monitor_destroy flag m.bridge).1
        → Step m m2

  pub data Reach (m : Monitors W) : Monitors W → Type 0 where
    here : Reach m m
    next : {m1 m2 : Monitors W} → Reach m m1 → Step m1 m2 → Reach m m2
