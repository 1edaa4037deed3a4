-- ===== src/Jni.antt =====
-- src/rc_monitor_jni.c: the bridge to Java. The functions of JNI are a parameter, `Machine` of Jni/Vm, over
-- the states of the Java machine; the global `g_ctx` is a field of the bridge's state. A listener that
-- calls the bridge again from `onRcState`, and calls from several threads at once, are not modelled.
pub mod Vm
pub mod Args
pub mod Delivery
pub mod Callback
pub mod Feed
pub mod Direct
pub mod Owned
pub mod Lifecycle
pub mod Stream
pub mod Requests
pub mod Monitor
pub mod Java
pub mod Tests
use Vm.{Machine, Ref, Status, ok, detached, failed}
use Args.{java_args}
use rc_monitor.Base.{
  ℕ, zero, suc, List, [], ◌∷◌, take, Option, none, some, Bool, true, false, if◌then◌else◌,
}
use rc_monitor.Base.Int.{ℤ, pos, negsuc, ltb_ℤ, leb_ℤ, pos_part}
use rc_monitor.Base.Word.{to_u16}
use rc_monitor.State.{RcState}
use rc_monitor.Payload.{parse_payload}
use rc_monitor.Parser.{Parser, create, reset, feed, blank}
use rc_monitor.Packet.{build_enable_cmd, build_channel_request}

-- `jni_ctx_t`. There is one Java machine in a process, so the field `jvm` is not kept.
pub record Context : Type 0 where
  pub parser : Option Parser
  pub listener_ref : Option Ref
  pub on_state_mid : Ref

-- `g_ctx` and the Java machine.
pub record Bridge (W : Type 0) : Type 0 where
  pub ctx : Option Context
  pub world : W

-- `if (length > arrLen) length = arrLen`
unfoldable pub clamp_length : ℤ → ℕ → ℕ
clamp_length length n = if ltb_ℤ (pos n) length then n else pos_part length

module _ {W : Type 0} (vm : Machine W) where
  -- `CallVoidMethod`, and the exception that the listener may have thrown.
  unfoldable pub call_listener : Ref → Ref → RcState → W → W
  call_listener listener mid s w =
      let w = vm.call_void_method listener mid (java_args s) w in
      if vm.exception_check w then vm.exception_clear (vm.exception_describe w) else w

  -- A thread that was not attached is attached for the call, if that succeeds.
  unfoldable pub call_attached : Ref → Ref → RcState → Bool × W → W
  call_attached listener mid s (true, w) = vm.detach (call_listener listener mid s w)
  call_attached listener mid s (false, w) = w

  -- By what `GetEnv` returns.
  unfoldable pub call_by_status : Status → Ref → Ref → RcState → W → W
  call_by_status ok listener mid s w = call_listener listener mid s w
  call_by_status detached listener mid s w = call_attached listener mid s (vm.attach w)
  call_by_status failed listener mid s w = w

  -- `jni_rc_callback`
  unfoldable pub callback : Option Context → RcState → W → W
  callback none s w = w
  callback (some c) s w = elim c.listener_ref [
    | none ↦ w
    | some listener ↦ call_by_status (vm.get_env w) listener c.on_state_mid s w
  ]

  -- The calls that `rcm_feed` makes, in order. `userdata` is the context.
  unfoldable pub callbacks : Option Context → List RcState → W → W
  callbacks c [] w = w
  callbacks c (s ∷ ss) w = callbacks c ss (callback c s w)

  -- The end of `nativeInit`, from `rcm_create` on.
  unfoldable pub init_parser : Ref → Option Ref → W → Option Parser → Bool × Bridge W
  init_parser mid ref w none = (false, record { ctx = none; world = vm.delete_global_ref ref w })
  init_parser mid ref w (some p) = (
    true,
    record {
      ctx = some (record { parser = some p; listener_ref = ref; on_state_mid = mid });
      world = w;
    },
  )

  -- From `calloc` of the context on.
  unfoldable pub init_context : Bool → Bool → Ref → Ref → W → Bool × Bridge W
  init_context false allocated_parser listener mid w = (false, record { ctx = none; world = w })
  init_context true allocated_parser listener mid w =
      let (ref, w) = vm.new_global_ref listener w in
      init_parser mid ref w (create true allocated_parser)

  -- From `GetMethodID` on, with its result.
  unfoldable pub init_method : Bool → Bool → Ref → Option Ref × W → Bool × Bridge W
  init_method allocated_ctx allocated_parser listener (none, w) =
      (false, record { ctx = none; world = w })
  init_method allocated_ctx allocated_parser listener (some mid, w) =
      init_context allocated_ctx allocated_parser listener mid w

  -- From `GetObjectClass` on, with its result.
  unfoldable pub init_class : Bool → Bool → Ref → Option Ref × W → Bool × Bridge W
  init_class allocated_ctx allocated_parser listener (none, w) =
      (false, record { ctx = none; world = w })
  init_class allocated_ctx allocated_parser listener (some cls, w) =
      init_method allocated_ctx allocated_parser listener (vm.get_method_id cls w)

  unfoldable pub init_once : Bool → Bool → Ref → Bridge W → Option Context → Bool × Bridge W
  init_once allocated_ctx allocated_parser listener b (some c) = (false, b)
  init_once allocated_ctx allocated_parser listener b none =
      init_class allocated_ctx allocated_parser listener (vm.get_object_class listener b.world)

  -- `nativeInit`, and whether its two calls of `calloc` succeed.
  unfoldable pub native_init : Bool → Bool → Ref → Bridge W → Bool × Bridge W
  native_init allocated_ctx allocated_parser listener b =
      init_once allocated_ctx allocated_parser listener b b.ctx

  -- What `rcm_feed` gives to `nativeFeed`: its calls, the release of the array, and the number.
  unfoldable pub feed_done :
      Context → Ref → W → Option (ℕ × List RcState × Option Parser) → Option (ℤ × Bridge W)
  feed_done c array w none = none
  feed_done c array w (some (n, calls, p)) =
      let w = vm.release_elements array (callbacks (some c) calls w) in
      some (pos n, record { ctx = some (record c { parser = p }); world = w })

  -- With the elements of the array, or NULL.
  unfoldable pub feed_elements :
      Context → Parser → Ref → ℕ → Option (List ℕ) × W → Option (ℤ × Bridge W)
  feed_elements c p array len (none, w) = some (pos 0, record { ctx = some c; world = w })
  feed_elements c p array len (some buf, w) =
      feed_done c array w (feed (some p) (some (take len buf)))

  -- The tests of `nativeFeed`: of its arguments, of the parser and of `g_ctx`.
  unfoldable pub feed_array : ℤ → Bridge W → Context → Parser → Option Ref → Option (ℤ × Bridge W)
  feed_array length b c p none = some (pos 0, b)
  feed_array length b c p (some array) =
      if leb_ℤ length (pos 0)
      then some (pos 0, b)
      else feed_elements c p array (clamp_length length (vm.array_length array b.world))
          (vm.get_elements array b.world)

  unfoldable pub feed_parser :
      Option Ref → ℤ → Bridge W → Context → Option Parser → Option (ℤ × Bridge W)
  feed_parser data_ref length b c none = some (pos 0, b)
  feed_parser data_ref length b c (some p) = feed_array length b c p data_ref

  unfoldable pub feed_context : Option Ref → ℤ → Bridge W → Option Context → Option (ℤ × Bridge W)
  feed_context data_ref length b none = some (pos 0, b)
  feed_context data_ref length b (some c) = feed_parser data_ref length b c c.parser

  -- `nativeFeed`: its result and the bridge. The outer `none` is fuel that ran out in the parser.
  unfoldable pub native_feed : Option Ref → ℤ → Bridge W → Option (ℤ × Bridge W)
  native_feed data_ref length b = feed_context data_ref length b b.ctx

  -- What `rcm_parse_payload` gives to `nativeFeedDirect`, after the release of the array.
  unfoldable pub direct_done : Context → W → ℤ × Option RcState → ℤ × Bridge W
  direct_done c w (pos zero, some s) =
      (pos 1, record { ctx = some c; world = callback (some c) s w })
  direct_done c w (pos zero, none) = (pos 0, record { ctx = some c; world = w })
  direct_done c w (pos (suc n), out) = (pos 0, record { ctx = some c; world = w })
  direct_done c w (negsuc n, out) = (pos 0, record { ctx = some c; world = w })

  unfoldable pub direct_elements : Context → Ref → ℕ → Option (List ℕ) × W → ℤ × Bridge W
  direct_elements c array len (none, w) = (negsuc 0, record { ctx = some c; world = w })
  direct_elements c array len (some buf, w) =
      direct_done c (vm.release_elements array w) (parse_payload (some buf) len (some blank))

  -- The tests of `nativeFeedDirect`.
  unfoldable pub direct_array : ℤ → Bridge W → Context → Option Ref → ℤ × Bridge W
  direct_array length b c none = (negsuc 0, b)
  direct_array length b c (some array) =
      if leb_ℤ length (pos 0)
      then (negsuc 0, b)
      else direct_elements c array (clamp_length length (vm.array_length array b.world))
          (vm.get_elements array b.world)

  unfoldable pub direct_context : Option Ref → ℤ → Bridge W → Option Context → ℤ × Bridge W
  direct_context payload length b none = (negsuc 0, b)
  direct_context payload length b (some c) = direct_array length b c payload

  -- `nativeFeedDirect`
  unfoldable pub native_feed_direct : Option Ref → ℤ → Bridge W → ℤ × Bridge W
  native_feed_direct payload length b = direct_context payload length b b.ctx

  -- `nativeReset`
  unfoldable pub reset_parser : Bridge W → Context → Option Parser → Bridge W
  reset_parser b c none = b
  reset_parser b c (some p) = record b { ctx = some (record c { parser = reset (some p) }) }

  unfoldable pub reset_context : Bridge W → Option Context → Bridge W
  reset_context b none = b
  reset_context b (some c) = reset_parser b c c.parser

  unfoldable pub native_reset : Bridge W → Bridge W
  native_reset b = reset_context b b.ctx

  -- `nativeDestroy`
  unfoldable pub destroy_listener : W → Option Ref → W
  destroy_listener w none = w
  destroy_listener w (some ref) = vm.delete_global_ref (some ref) w

  unfoldable pub destroy_context : Bridge W → Option Context → Bridge W
  destroy_context b none = b
  destroy_context b (some c) = record {
    ctx = none;
    world = destroy_listener b.world c.listener_ref;
  }

  unfoldable pub native_destroy : Bridge W → Bridge W
  native_destroy b = destroy_context b b.ctx

  -- The array that the two builders return: `NewByteArray` and `SetByteArrayRegion`.
  unfoldable pub fill_array : List ℕ → Option Ref × W → Option Ref × W
  fill_array bytes (none, w) = (none, w)
  fill_array bytes (some array, w) = (some array, vm.set_region array bytes w)

  unfoldable pub to_java : ℤ × Option (List ℕ) → W → Option Ref × W
  to_java (pos len, some buf) w = fill_array (take len buf) (vm.new_byte_array len w)
  to_java (pos len, none) w = (none, w)
  to_java (negsuc n, buf) w = (none, w)

  -- `nativeBuildEnableCmd` and `nativeBuildChannelRequest`. `stack` is what `buf` holds before.
  unfoldable pub native_build_enable_cmd : List ℕ → ℤ → W → Option Ref × W
  native_build_enable_cmd stack seq w = to_java (build_enable_cmd (some stack) 1400 (to_u16 seq)) w

  unfoldable pub native_build_channel_request : List ℕ → ℤ → W → Option Ref × W
  native_build_channel_request stack seq w =
      to_java (build_channel_request (some stack) 1400 (to_u16 seq)) w
