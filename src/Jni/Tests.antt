-- ===== src/Jni/Tests.antt =====
-- The bridge on a machine in which every call succeeds: a listener 2, and arrays that hold two push
-- packets, a payload, or nothing.
use rc_monitor.Base.{
  ℕ, zero, ◌<◌, ◌==◌, ◌≡◌, refl, List, [], ◌∷◌, ◌++◌, map, length, min, replicate, length-replicate,
  none, some, Bool, true, false, if◌then◌else◌, arith, ◌⊎◌, inl, inr,
}
use rc_monitor.Base.Int.{ℤ, pos}
use rc_monitor.Base.Word.{codes}
use rc_monitor.State.{RcState, duml_cmd_rc_push}
use rc_monitor.Payload.{flight_mode_str}
use rc_monitor.Parser.{Parser, feed, fresh, blank}
use rc_monitor.Parser.Feed.{fresh-IsIdle}
use rc_monitor.Packet.{request_header, duml_cmd_rc_enable, duml_cmd_rc_channel}
use rc_monitor.Packet.Layout.{packet, header_bytes}
use rc_monitor.Packet.RoundTrip.{Message, stream}
use rc_monitor.Packet.Delivery.{IsPush, states, stream-IsBytes}
use rc_monitor.Jni.{
  Bridge, callback, native_init, native_feed, native_feed_direct, native_destroy,
  native_build_enable_cmd, native_build_channel_request,
}
use rc_monitor.Jni.Vm.{Ref, ok, detached}
use rc_monitor.Jni.Args.{
  java_args, type_of, descriptor, read_descriptor, on_rc_state, flight_mode_string,
}
use rc_monitor.Jni.Delivery.{java_state, on_rc_state-java_args}
use rc_monitor.Jni.Callback.{Called, Reaches, calls_of, callback_lem}
use rc_monitor.Jni.Feed.{Ready, read_bytes, native_feed_lem}
use rc_monitor.Jni.Direct.{decoded, SameContext, native_feed_direct_lem}
use rc_monitor.Jni.Owned.{unset}
use rc_monitor.Jni.Lifecycle.{Reach, here, next, init, lifecycle}
use rc_monitor.Jni.Stream.{new_context, init_feed_lem}
use rc_monitor.Jni.Requests.{native_build_lem}
use rc_monitor.Jni.Java.{Java, java, see, bytes_of, java-Documented, status_of, bytes_stay}

abbrev push_message : Message
push_message = record {
  header = request_header 1 duml_cmd_rc_push;
  payload = 0x70 ∷ 0x11 ∷ 1 ∷ 0 ∷ 0x4a ∷ 0x94 ∷ 6 ∷ 0 ∷ 4 ∷ 0 ∷ 4 ∷ 0x6c ∷ 1 ∷ 0 ∷ 4 ∷ 0 ∷ 4 ∷ [];
}

push_message-IsPush : IsPush push_message
unfolding request_header
push_message-IsPush = record {
  set = refl;
  id = refl;
  enough = omega arith;
  short = omega arith;
  bytes = omega arith;
}

abbrev two_messages : List Message
two_messages = push_message ∷ push_message ∷ []

-- Array 3 holds the packets and array 4 the payload.
unfoldable arrays : Ref → List ℕ
arrays r = if r == 3 then stream two_messages else if r == 4 then push_message.payload else []

-- A thread that is not attached.
abbrev world : Java
world = record {
  view = record { attached = false; pending = false; globals = 4; copies = 0; received = [] };
  arrays = arrays;
}

abbrev up_world : Java
up_world = record world { view = record world.view { globals = 5 } }

abbrev ready_bridge : Bridge Java
ready_bridge = record { ctx = some (new_context 7 6); world = up_world }

ready_bridge-Ready : Ready ready_bridge (new_context 7 6) fresh
ready_bridge-Ready = record { context = refl; parser = refl; idle = fresh-IsIdle }

status_of-cases : (b : Bool) → (status_of b ≡ ok) ⊎ ((status_of b ≡ detached) × (true ≡ true))
unfolding status_of
status_of-cases true = inl refl
status_of-cases false = inr (refl, refl)

up : (w : Java) → Reaches java see bytes_of java-Documented w
unfolding java
up w = status_of-cases w.view.attached

elements : (a : Ref) (w : Java) → (java.get_elements a w).0 ≡ some (bytes_of a w)
unfolding java
elements a w = refl

-- The whole way from the bytes in an array to the calls of the listener.
holds_packets : (w : Java) → w.arrays ≡ arrays → bytes_of 3 w ≡ stream two_messages
unfolding bytes_of arrays
holds_packets w e = rw e (
    bytes_stay (stream two_messages)
      (stream-IsBytes two_messages (push_message-IsPush, (push_message-IsPush, tt))))

on_rc_state-java_args_example :
    (read_descriptor (codes descriptor) ≡ some (map type_of (java_args blank)))
    × (on_rc_state (java_args blank) ≡ some (java_state blank))
    × (flight_mode_string (java_state blank).flight_mode ≡ flight_mode_str blank.flight_mode)
on_rc_state-java_args_example = on_rc_state-java_args blank

callback_lem_example :
    Called
      (new_context 7 6)
      blank
      (see up_world)
      (see (callback java (some (new_context 7 6)) blank up_world))
callback_lem_example =
    callback_lem java see bytes_of java-Documented (new_context 7 6) blank up_world

native_feed_lem_example :
    (cs : List RcState) × (q : Parser) × (b2 : Bridge Java) × (feed
        (some fresh)
        (some (read_bytes (pos 60) (bytes_of 3 up_world)))
      ≡ some (length cs, cs, some q))
    × (native_feed java (some 3) (pos 60) ready_bridge ≡ some (pos (length cs), b2))
    × (b2.ctx ≡ some (record (new_context 7 6) { parser = some q }))
    × ((see b2.world).received ≡ [] ++ calls_of 7 6 cs)
native_feed_lem_example =
    native_feed_lem java see bytes_of java-Documented ready_bridge (new_context 7 6) fresh 3 7 60
      (bytes_of 3 up_world) ready_bridge-Ready refl up (omega arith) (elements 3 up_world)

native_feed_direct_lem_example :
    (cs : List RcState) × (cs
      ≡ decoded (min 60 (length (bytes_of 4 up_world))) (bytes_of 4 up_world))
    × ((native_feed_direct java (some 4) (pos 60) ready_bridge).0 ≡ pos (length cs))
    × ((see (native_feed_direct java (some 4) (pos 60) ready_bridge).1.world).received
        ≡ [] ++ calls_of 7 6 cs)
    × SameContext see ready_bridge
        (new_context 7 6)
        (native_feed_direct java (some 4) (pos 60) ready_bridge).1
native_feed_direct_lem_example =
    native_feed_direct_lem java see bytes_of java-Documented ready_bridge (new_context 7 6) 4 7 60
      (bytes_of 4 up_world) refl refl up (omega arith) (elements 4 up_world)

unfoldable stack : List ℕ
stack = replicate 1400 0

stack-length : length stack ≡ 1400
unfolding stack
stack-length = length-replicate 1400 zero

java_calls :
    (java.get_object_class 2 world ≡ (some 5, world))
    × (java.get_method_id 5 world ≡ (some 6, world))
    × (java.new_global_ref 2 world ≡ (some 7, up_world))
unfolding java
java_calls = (refl, refl, refl)

new_array : (n : ℕ) → (java.new_byte_array n world).0 ≡ some 9
unfolding java
new_array n = refl

length-two_messages : 0 < length (stream two_messages)
unfolding stream packet header_bytes
length-two_messages = omega arith

abbrev opened_bridge : Bridge Java
opened_bridge = (native_init java true true 2 (unset world)).1

opened_Reach : Reach java see bytes_of java-Documented (unset world) opened_bridge
opened_Reach = next here (init true true 2 refl)

lifecycle_example :
    ((decoded : ℤ) × (b2 : Bridge Java) × (native_feed java (some 3) (pos 60) opened_bridge
        ≡ some (decoded, b2)))
    × ((see opened_bridge.world).attached ≡ false)
    × ((see opened_bridge.world).copies ≡ 0)
    × ((native_destroy java opened_bridge).ctx ≡ none)
    × ((see (native_destroy java opened_bridge).world).globals ≡ 4)
lifecycle_example =
    lifecycle java see bytes_of java-Documented world opened_bridge (some 3) (pos 60) opened_Reach

init_feed_lem_example :
    (b : Bridge Java) × (b2 : Bridge Java) × (native_init java true true 2 (unset world)
      ≡ (true, b))
    × (native_feed java (some 3) (pos (length (stream two_messages))) b ≡ some (pos 2, b2))
    × ((see b2.world).received ≡ (see b.world).received ++ calls_of 7 6 (states two_messages))
init_feed_lem_example =
    init_feed_lem java see bytes_of java-Documented world world world up_world 2 5 6 7 3
      (bytes_of 3 up_world) two_messages java_calls.0 java_calls.1 java_calls.2 up
      (elements 3 up_world) (holds_packets up_world refl) length-two_messages
      (push_message-IsPush, (push_message-IsPush, tt))

native_build_lem_example :
    ((native_build_enable_cmd java stack (pos 7) world).0 ≡ some 9)
    × (bytes_of 9 (native_build_enable_cmd java stack (pos 7) world).1
        ≡ packet (request_header 7 duml_cmd_rc_enable) (1 ∷ []))
    × ((native_build_channel_request java stack (pos 7) world).0 ≡ some 9)
    × (bytes_of 9 (native_build_channel_request java stack (pos 7) world).1
        ≡ packet (request_header 7 duml_cmd_rc_channel) [])
native_build_lem_example =
    native_build_lem java see bytes_of java-Documented stack (pos 7) world 9 9 stack-length
      (new_array 14) (new_array 13)
