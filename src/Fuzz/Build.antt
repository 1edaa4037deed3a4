-- ===== src/Fuzz/Build.antt =====
-- What test/fuzz_build_packet.c does with its inputs: it builds a packet and feeds it.
use rc_monitor.Base.{
  ℕ, suc, ◌+◌, ◌-◌, ◌<◌, ◌≤◌, ◌≡◌, refl, sym, ap, ◌∙◌, subst, arith, inl, inr, true, false, List,
  [], ◌∷◌, ◌++◌, length, take, drop, get_or, length-drop, length-take, take_all, take-append,
  append-nil, All, All-take, All-drop, All-get_or, IsBytes, none, some, ltb, ltb→lt, ltb→ge, leb,
  leb→le, leb→gt, ◌==◌, ◌&&◌, Bool, Bool-cases,
}
use rc_monitor.Base.Int.{pos}
use rc_monitor.State.{RcState, duml_cmd_set_rc, duml_cmd_rc_push}
use rc_monitor.Payload.{decode_payload}
use rc_monitor.Scan.{Scans, stop}
use rc_monitor.Scan.Laws.{Scans-functional, front_empty}
use rc_monitor.Parser.{Parser, feed}
use rc_monitor.Parser.Ring.{contents}
use rc_monitor.Parser.Decode.{delivered, delivered_push, outcomes, states_of}
use rc_monitor.Parser.Feed.{feed_lem}
use rc_monitor.Packet.{Header, build_packet}
use rc_monitor.Packet.Layout.{packet, length-packet, IsBytes-packet, build_packet_lem}
use rc_monitor.Packet.RoundTrip.{Message, Scans-packet}
use rc_monitor.Packet.Delivery.{IsPush, deliver-packet}
use rc_monitor.Fuzz.{
  initialize, header_of, payload_of, payload_len_of, feed_built, build_input, run_inputs,
}
use rc_monitor.Fuzz.Run.{IsReady, reset-IsReady, Each, run_inputs_lem}

-- The bytes that become the payload.
abbrev pub content : List ℕ → List ℕ
content input = take (payload_len_of input) (drop 8 input)

payload_len_lem :
    (input : List ℕ) → (payload_len_of input ≤ length input - 8) × (payload_len_of input ≤ 1387)
unfolding payload_len_of
payload_len_lem input = ground arith

length-content : (input : List ℕ) → length (content input) ≡ payload_len_of input
length-content input = omega (
  arith,
  length-take (payload_len_of input) (drop 8 input),
  length-drop 8 input,
  payload_len_lem input,
)

take_twice : (n : ℕ) (xs : List ℕ) → n ≤ length xs → take n (take n xs) ≡ take n xs
take_twice n xs h =
    ap (λ k. take k (take n xs)) (sym (omega (arith, length-take n xs))) ∙ take_all (take n xs)

-- The builder reads a payload only as far as it is told.
build_packet-take :
    (out : List ℕ) (size : ℕ) (h : Header) (bytes : List ℕ) (n : ℕ)
    → n ≤ length bytes
    → build_packet (some out) size h (some bytes) n
      ≡ build_packet (some out) size h (some (take n bytes)) n
unfolding build_packet
build_packet-take out size h bytes n enough = rw (take_twice n bytes enough) refl

build_packet-none :
    (out : List ℕ) (size : ℕ) (h : Header)
    → build_packet (some out) size h none 0 ≡ build_packet (some out) size h (some []) 0
unfolding build_packet
build_packet-none out size h = ground arith

build_content :
    (stack input : List ℕ) (h : Header)
    → build_packet (some stack) 1400 h (payload_of input) (payload_len_of input)
      ≡ build_packet (some stack) 1400 h (some (content input)) (payload_len_of input)
unfolding payload_of
build_content stack input h = elim (Bool-cases (ltb 8 (length input))) [
  | inl more ↦ rw more (
      build_packet-take stack 1400 h (drop 8 input) (payload_len_of input)
        (omega (arith, length-drop 8 input, payload_len_lem input)))
  | inr only_header ↦
      let nothing : payload_len_of input ≡ 0 =
        omega (arith, payload_len_lem input, ltb→ge 8 (length input) only_header) in
      rw (only_header, nothing) (build_packet-none stack 1400 h)
]

-- The builder accepts what the harness takes from any input.
built_lem :
    (stack input : List ℕ)
    → length stack ≡ 1400
    → build_packet (some stack) 1400 (header_of input) (payload_of input) (payload_len_of input) ≡ (
      pos (13 + length (content input)),
      some (packet (header_of input) (content input) ++ drop (13 + length (content input)) stack),
    )
built_lem stack input size =
    build_content stack input (header_of input)
    ∙ ap (build_packet (some stack) 1400 (header_of input) (some (content input)))
        (sym (length-content input))
    ∙ build_packet_lem stack 1400 (header_of input) (content input) (
      omega (arith, length-content input, payload_len_lem input),
      omega (arith, length-content input, payload_len_lem input),
      omega arith,
    )

-- What is fed is the packet.
feed_built_lem :
    (p : Parser) (h : Header) (payload rest : List ℕ)
    → feed_built (some p) (pos (13 + length payload), some (packet h payload ++ rest))
      ≡ feed (some p) (some (packet h payload))
unfolding feed_built
feed_built_lem p h payload rest =
    ap (λ k. feed_built (some p) (pos k, some (packet h payload ++ rest))) thirteen
    ∙ ap (λ l. feed (some p) (some l))
        (ap (λ k. take k (packet h payload ++ rest)) (sym thirteen ∙ sym (length-packet h payload))
          ∙ take-append (packet h payload) rest)
  where
    thirteen : 13 + length payload ≡ suc (12 + length payload)
    thirteen = omega arith

-- The message that an input of at least 8 bytes stands for.
abbrev pub message_of : List ℕ → Message
message_of input = record { header = header_of input; payload = content input }

packet-IsBytes :
    (input : List ℕ) → IsBytes input → IsBytes (packet (header_of input) (content input))
packet-IsBytes input bytes = IsBytes-packet (header_of input) (content input) set id (
    All-take (λ b. b < 256) (payload_len_of input) (drop 8 input)
      (All-drop (λ b. b < 256) 8 input bytes))
  where
    set : (header_of input).cmd_set < 256
    set = unfold header_of in All-get_or (λ b. b < 256) input 6 0 (omega arith) bytes

    id : (header_of input).cmd_id < 256
    id = unfold header_of in All-get_or (λ b. b < 256) input 7 0 (omega arith) bytes

-- Whether an input makes a push packet.
unfoldable pub pushes : List ℕ → Bool
pushes input =
    (get_or input 6 0 == duml_cmd_set_rc)
    && ((get_or input 7 0 == duml_cmd_rc_push) && leb 25 (length input))

pushes-IsPush :
    (input : List ℕ)
    → IsBytes input
    → length input ≤ 1018
    → pushes input ≡ true
    → IsPush (record { header = header_of input; payload = drop 8 input })
unfolding pushes
pushes-IsPush input bytes short h = record {
  set = unfold header_of in ground arith;
  id = unfold header_of in ground arith;
  enough = ground (arith, length-drop 8 input);
  short = omega (arith, length-drop 8 input);
  bytes = All-drop (λ b. b < 256) 8 input bytes;
}

-- What an input leads to: one too short to nothing; one that makes a push packet to its state; another
-- with up to 1010 bytes of payload to what its packet alone leads to; and a longer one to what its
-- truncated packet divides into.
pub data Tested (input : List ℕ) (calls : List RcState) : Type 0 where
  too_short : length input < 8 → calls ≡ [] → Tested input calls
  push_packet :
      IsPush (record { header = header_of input; payload = drop 8 input })
      → calls ≡ decode_payload (drop 8 input) ∷ []
      → Tested input calls
  one_packet :
      8 ≤ length input
      → length input ≤ 1018
      → pushes input ≡ false
      → calls ≡ delivered (packet (header_of input) (drop 8 input) ∷ [])
      → Tested input calls
  too_long :
      (fs : List (List ℕ)) (r : List ℕ)
      → 1018 < length input
      → Scans (packet (header_of input) (content input)) fs r
      → calls ≡ delivered fs
      → Tested input calls

content_whole : (input : List ℕ) → length input ≤ 1018 → content input ≡ drop 8 input
content_whole input short =
    ap (λ k. take k (drop 8 input)) (whole input short ∙ sym (length-drop 8 input))
    ∙ take_all (drop 8 input)
  where
    whole : (input : List ℕ) → length input ≤ 1018 → payload_len_of input ≡ length input - 8
    whole input short = unfold payload_len_of in ground arith

-- From the division of the packet to the calls.
tested :
    (input : List ℕ) (fs : List (List ℕ)) (r : List ℕ)
    → IsBytes input
    → 8 ≤ length input
    → Scans (packet (header_of input) (content input)) fs r
    → Tested input (delivered fs)
tested input fs r bytes enough t = elim (Bool-cases (leb (length input) 1018)) [
  | inl short ↦
      let le = leb→le (length input) 1018 short in
      let alone =
        Scans-packet (message_of input) []
          (omega (arith, length-content input, payload_len_lem input))
          (stop (front_empty [] refl)) in
      let same = Scans-functional t (
        subst (λ l. Scans l (packet (header_of input) (content input) ∷ []) [])
          (append-nil (packet (header_of input) (content input))) alone) in
      let calls =
        ap delivered same.0
        ∙ ap (λ l. delivered (packet (header_of input) l ∷ [])) (content_whole input le) in
      elim (Bool-cases (pushes input)) [
        | inl push ↦
            let v = pushes-IsPush input bytes le push in
            push_packet v (
              calls
              ∙ delivered_push (packet (header_of input) (drop 8 input)) []
                  (decode_payload (drop 8 input)) (sym (deliver-packet _ v))
              ∙ ap (λ l. decode_payload (drop 8 input) ∷ l)
                  (unfold delivered outcomes states_of in refl))
        | inr other ↦ one_packet enough le other calls
      ]
  | inr long ↦ too_long fs r (leb→gt (length input) 1018 long) t refl
]

-- One input.
build_input_lem :
    (stack input : List ℕ) (p : Parser)
    → length stack ≡ 1400
    → IsBytes input
    → IsReady p
    → (calls : List RcState) × (q : Parser) × (build_input stack input (some p)
        ≡ some (calls, some q))
      × Tested input calls
      × IsReady q
unfolding build_input
build_input_lem stack input p size bytes v = elim (Bool-cases (ltb (length input) 8)) [
  | inl short ↦ ([], p, rw short refl, too_short (ltb→lt (length input) 8 short) refl, v)
  | inr enough ↦
      let h = header_of input in
      let (fs, q, e, t, w, lt) =
        feed_lem p (packet h (content input)) v.idle (packet-IsBytes input bytes) in
      let (z, cleared, ready) = reset-IsReady q w.valid.ring_ok in
      (
        delivered fs,
        z,
        rw
            (
              enough,
              built_lem stack input size,
              feed_built_lem p h (content input) (drop (13 + length (content input)) stack),
              e,
            )
            (ap (λ y. some (delivered fs, y)) cleared),
        tested input fs (contents q) bytes (ltb→ge (length input) 8 enough)
            (subst (λ l. Scans (l ++ packet h (content input)) fs (contents q)) v.empty t),
        ready,
      )
]

-- From the parser that LLVMFuzzerInitialize makes, fuzz_build_packet runs through any inputs, whatever
-- its array holds at first. An input of 25 to 1018 bytes whose seventh and eighth are 6 and 5 leads to
-- one call, with its bytes from the ninth on decoded; any other of 8 to 1018 to what its packet alone
-- leads to; a shorter one to none; and a longer one to what its truncated packet divides into. In the
-- end the parser is valid and holds no byte.
pub run_inputs-build_input :
    (stack : List ℕ) (inputs : List (List ℕ))
    → length stack ≡ 1400
    → All IsBytes inputs
    → (css : List (List RcState)) × (q : Parser) × (run_inputs
          (build_input stack)
          inputs
          (initialize true)
        ≡ some (css, some q))
      × Each Tested inputs css
      × IsReady q
run_inputs-build_input stack inputs size =
    run_inputs_lem (build_input stack) Tested (λ i p. build_input_lem stack i p size) inputs
