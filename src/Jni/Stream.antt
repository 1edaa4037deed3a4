-- ===== src/Jni/Stream.antt =====
-- From the bytes of Java to the calls of its listener, and from the builders to arrays of Java.
use rc_monitor.Base.{
  ℕ, ◌<◌, ◌≡◌, refl, ap, ◌∙◌, List, length, ◌++◌, some, true, arith, All, take, length-map,
  take_all,
}
use rc_monitor.Base.Int.{pos}
use rc_monitor.Payload.{decode_payload}
use rc_monitor.Parser.{feed, fresh, create}
use rc_monitor.Parser.Valid.{fresh-IsValid}
use rc_monitor.Parser.Feed.{fresh-IsIdle}
use rc_monitor.Packet.RoundTrip.{Message, stream}
use rc_monitor.Packet.Delivery.{IsPush, states, feed-stream}
use rc_monitor.Jni.{
  Context, Bridge, init_parser, init_context, init_method, init_class, init_once, native_init,
  native_feed,
}
use rc_monitor.Jni.Vm.{Machine, Ref, View, Documented}
use rc_monitor.Jni.Callback.{calls_of, Reaches}
use rc_monitor.Jni.Feed.{read_bytes, native_feed_lem}
use rc_monitor.Jni.Owned.{unset}

-- The context that `nativeInit` makes.
abbrev pub new_context : Ref → Ref → Context
new_context ref mid = record { parser = some fresh; listener_ref = some ref; on_state_mid = mid }

module _ {W : Type 0} (vm : Machine W) (see : W → View) (bytes_of : Ref → W → List ℕ)
    (doc : Documented vm see bytes_of) where
  -- `nativeInit` where each of its calls succeeds.
  native_init_ok :
      (w w1 w2 w3 : W) (listener cls mid ref : Ref)
      → vm.get_object_class listener w ≡ (some cls, w1)
      → vm.get_method_id cls w1 ≡ (some mid, w2)
      → vm.new_global_ref listener w2 ≡ (some ref, w3)
      → native_init vm true true listener (unset w)
        ≡ (true, record { ctx = some (new_context ref mid); world = w3 })
  unfolding native_init init_once init_class init_method init_context init_parser create unset
  native_init_ok w w1 w2 w3 listener cls mid ref e1 e2 e3 = rw (e1, e2, e3) refl

  read_all : (bytes buf : List ℕ) → buf ≡ bytes → read_bytes (pos (length bytes)) buf ≡ bytes
  read_all bytes buf e = rw e (ap (λ k. take k bytes) (omega arith) ∙ take_all bytes)

  -- The library as Java uses it. `nativeInit` with a listener whose class has `onRcState`, where
  -- the two allocations and `NewGlobalRef` succeed, returns true; `nativeFeed` then, on an array that
  -- holds the packets of any messages with push payloads and that Java gives the elements of, returns
  -- the number of messages, and the listener is called once for each of them, in order, with the fields
  -- of the state that its payload decodes to; provided that the thread is attached or can be.
  pub init_feed_lem :
      (w w1 w2 w3 : W) (listener cls mid ref a : Ref) (buf : List ℕ) (ms : List Message)
      → vm.get_object_class listener w ≡ (some cls, w1)
      → vm.get_method_id cls w1 ≡ (some mid, w2)
      → vm.new_global_ref listener w2 ≡ (some ref, w3)
      → ((w : W) → Reaches vm see bytes_of doc w)
      → (vm.get_elements a w3).0 ≡ some buf
      → bytes_of a w3 ≡ stream ms
      → 0 < length (stream ms)
      → All IsPush ms
      → (b : Bridge W) × (b2 : Bridge W) × (native_init vm true true listener (unset w) ≡ (true, b))
        × (native_feed vm (some a) (pos (length (stream ms))) b ≡ some (pos (length ms), b2))
        × ((see b2.world).received ≡ (see b.world).received ++ calls_of ref mid (states ms))
  unfolding states
  init_feed_lem w w1 w2 w3 listener cls mid ref a buf ms e1 e2 e3 up got holds some_bytes push =
      let b : Bridge W = record { ctx = some (new_context ref mid); world = w3 } in
      let (q, fed, empty, idle) = feed-stream fresh ms fresh-IsIdle fresh-IsValid.1 push in
      let (cs, q2, b2, fed2, result, context, calls) =
        native_feed_lem vm see bytes_of doc b (new_context ref mid) fresh a ref (length (stream ms))
          buf (record { context = refl; parser = refl; idle = fresh-IsIdle }) refl up some_bytes
          got in
      let length-states : length (states ms) ≡ length ms =
        length-map ms (λ m. decode_payload m.payload) in
      let same : cs ≡ states ms = cc (
        fed,
        fed2,
        ap (λ l. feed (some fresh) (some l)) (read_all (stream ms) (bytes_of a w3) holds),
      ) in
      (
        b,
        b2,
        native_init_ok w w1 w2 w3 listener cls mid ref e1 e2 e3,
        result ∙ ap (λ n. some (pos n, b2)) (ap length same ∙ length-states),
        calls ∙ ap (λ l. (see b.world).received ++ calls_of ref mid l) same,
      )
