-- ===== src/Jni/Requests.antt =====
-- The arrays that `nativeBuildEnableCmd` and `nativeBuildChannelRequest` return.
use rc_monitor.Base.{
  ℕ, ◌≡◌, refl, sym, ap, ◌∙◌, List, [], ◌∷◌, ◌++◌, length, drop, Option, none, some, arith,
  take-append, IsBytes,
}
use rc_monitor.Base.Int.{ℤ, pos}
use rc_monitor.Base.Word.{to_u16}
use rc_monitor.Packet.{request_header, duml_cmd_rc_enable, duml_cmd_rc_channel}
use rc_monitor.Packet.Layout.{packet, length-packet, IsBytes-packet}
use rc_monitor.Packet.Limits.{request_lem}
use rc_monitor.Jni.{fill_array, to_java, native_build_enable_cmd, native_build_channel_request}
use rc_monitor.Jni.Vm.{Machine, Ref, View, Documented}

module _ {W : Type 0} (vm : Machine W) (see : W → View) (bytes_of : Ref → W → List ℕ)
    (doc : Documented vm see bytes_of) where
  filled :
      (bytes : List ℕ) (n : ℕ) (w : W) (a : Ref) (o : Option Ref × W)
      → o ≡ vm.new_byte_array n w
      → o.0 ≡ some a
      → IsBytes bytes
      → length bytes ≡ n
      → ((fill_array vm bytes o).0 ≡ some a) × (bytes_of a (fill_array vm bytes o).1 ≡ bytes)
  unfolding fill_array
  filled bytes n w a (none, w1) e some_a all_bytes len = cc
  filled bytes n w a (some x, w1) e some_a all_bytes len =
      let new : x ≡ a = cc in
      let at_a : (vm.new_byte_array n w).0 ≡ some a = sym (ap (λ o. o.0) e) ∙ some_a in
      let size : length (bytes_of a w1) ≡ n =
        ap (λ o. length (bytes_of a o.1)) e ∙ doc.new_array-length n w at_a in
      (
        some_a,
        ap (λ r. bytes_of a (vm.set_region r bytes w1)) new
            ∙ doc.region-contents a bytes w1 all_bytes (len ∙ sym size),
      )

  written :
      (bytes rest : List ℕ) (n : ℕ) (w : W) (a : Ref)
      → (vm.new_byte_array n w).0 ≡ some a
      → IsBytes bytes
      → length bytes ≡ n
      → ((to_java vm (pos n, some (bytes ++ rest)) w).0 ≡ some a)
        × (bytes_of a (to_java vm (pos n, some (bytes ++ rest)) w).1 ≡ bytes)
  unfolding to_java
  written bytes rest n w a some_a all_bytes len =
      rw (sym len, take-append bytes rest)
        (filled bytes (length bytes) w a (vm.new_byte_array (length bytes) w) refl
          (ap (λ k. (vm.new_byte_array k w).0) len ∙ some_a) all_bytes refl)

  -- Whatever the array on the stack holds, and where Java has memory for the array,
  -- `nativeBuildEnableCmd` returns an array with the packet that enables the push, of 14 bytes, and
  -- `nativeBuildChannelRequest` one with the packet that asks for the channels, of 13; the sequence
  -- number is the argument modulo 65536.
  pub native_build_lem :
      (stack : List ℕ) (seq : ℤ) (w : W) (a c : Ref)
      → length stack ≡ 1400
      → (vm.new_byte_array 14 w).0 ≡ some a
      → (vm.new_byte_array 13 w).0 ≡ some c
      → ((native_build_enable_cmd vm stack seq w).0 ≡ some a)
        × (bytes_of a (native_build_enable_cmd vm stack seq w).1
            ≡ packet (request_header (to_u16 seq) duml_cmd_rc_enable) (1 ∷ []))
        × ((native_build_channel_request vm stack seq w).0 ≡ some c)
        × (bytes_of c (native_build_channel_request vm stack seq w).1
            ≡ packet (request_header (to_u16 seq) duml_cmd_rc_channel) [])
  unfolding request_header native_build_enable_cmd native_build_channel_request
  native_build_lem stack seq w a c size some_a some_c =
      let room = request_lem stack 1400 (to_u16 seq) (omega arith) (omega (arith, size)) in
      let enable =
        written (packet (request_header (to_u16 seq) duml_cmd_rc_enable) (1 ∷ [])) (drop 14 stack)
          14 w a some_a (IsBytes-packet _ (1 ∷ []) (omega arith) (omega arith) (omega arith))
          (length-packet _ (1 ∷ [])) in
      let channel =
        written (packet (request_header (to_u16 seq) duml_cmd_rc_channel) []) (drop 13 stack) 13 w c
          some_c (IsBytes-packet _ [] (omega arith) (omega arith) tt) (length-packet _ []) in
      rw (room.0, room.1) (enable.0, enable.1, channel.0, channel.1)
