-- ===== src/Emulator/Session/Step.antt =====
-- What one round of a session does to it: the message that it sends, and the state that it draws.
use rc_monitor.Base.{
  ℕ, ◌+◌, ◌<◌, ◌≡◌, refl, sym, ap, ap₂, ◌∙◌, subst, arith, List, [], ◌∷◌, ◌++◌, length, take, drop,
  take-append, append-nil, append_assoc, Option, none, some, All, All-append, IsBytes,
}
use rc_monitor.Base.Int.{ℤ, pos, ◌-ℤ◌}
use rc_monitor.Payload.{decode_payload}
use rc_monitor.Parser.{Parser, feed}
use rc_monitor.Parser.Ring.{contents}
use rc_monitor.Parser.Decode.{IsIdle}
use rc_monitor.Packet.{build_packet}
use rc_monitor.Packet.Layout.{packet, length-packet, build_packet_lem}
use rc_monitor.Packet.RoundTrip.{Message, stream}
use rc_monitor.Packet.Delivery.{IsPush, states, feed-stream}
use rc_monitor.Emulator.{
  EmuState, build_payload, put_u16_le, buttons_byte, joystick_byte, mode_byte, delta_byte,
}
use rc_monitor.Emulator.RoundTrip.{shown, FitsAxis, FitsAxes, decode-build}
use rc_monitor.Emulator.Input.{Curses, decay_sticks}
use rc_monitor.Emulator.Axes.{InRange, Axis}
use rc_monitor.Emulator.Range.Keys.{handle_key-Preserves}
use rc_monitor.Emulator.Range.Clicks.{handle_mouse-Preserves}
use rc_monitor.Emulator.Range.{decay_sticks-Preserves}
use rc_monitor.Emulator.Session.{
  Event, key, mouse, Session, handle, handle_all, push_header, called, fed, send, finish, round,
}

handle-InRange : (k : Curses) (e : EmuState) (i : Event) → InRange e → InRange (handle k e i)
unfolding handle
handle-InRange k e (key ch) h = handle_key-Preserves k ch e h
handle-InRange k e (mouse m) h = handle_mouse-Preserves k m e h

handle_all-InRange :
    (k : Curses) (e : EmuState) (is : List Event) → InRange e → InRange (handle_all k e is)
unfolding handle_all
handle_all-InRange k e [] h = h
handle_all-InRange k e (i ∷ is) h = handle_all-InRange k (handle k e i) is (handle-InRange k e i h)

widen : (v : ℤ) → Axis v → FitsAxis v
unfolding ◌-ℤ◌
widen v h = omega arith

InRange-FitsAxes : (e : EmuState) → InRange e → FitsAxes e
InRange-FitsAxes e h = record {
  left_h = widen e.stick_left_h h.0;
  left_v = widen e.stick_left_v h.1;
  right_h = widen e.stick_right_h h.2;
  right_v = widen e.stick_right_v h.3;
  wheel_left = widen e.left_wheel h.4;
  wheel_right = widen e.right_wheel h.5;
}

-- The message that a round sends.
abbrev pub sent : ℕ → EmuState → Message
sent seq e = record { header = push_header seq; payload = build_payload e }

length-build_payload : (e : EmuState) → length (build_payload e) ≡ 17
unfolding build_payload put_u16_le
length-build_payload e = refl

delta_byte-lt : (d : ℤ) → delta_byte d < 256
unfolding delta_byte
delta_byte-lt d = ground arith

build_payload-IsBytes : (e : EmuState) → IsBytes (build_payload e)
unfolding build_payload put_u16_le buttons_byte joystick_byte mode_byte
build_payload-IsBytes e = omega (arith, delta_byte-lt e.right_wheel_delta)

sent-IsPush : (seq : ℕ) (e : EmuState) → IsPush (sent seq e)
sent-IsPush seq e = record {
  set = unfold push_header in refl;
  id = unfold push_header in refl;
  enough = omega (arith, length-build_payload e);
  short = omega (arith, length-build_payload e);
  bytes = build_payload-IsBytes e;
}

stream-append : (ms ns : List Message) → stream (ms ++ ns) ≡ stream ms ++ stream ns
unfolding stream
stream-append [] ns = refl
stream-append (m ∷ ms) ns =
    ap (λ l. packet m.header m.payload ++ l) (stream-append ms ns)
    ∙ sym (append_assoc (packet m.header m.payload) (stream ms) (stream ns))

states-append : (ms ns : List Message) → states (ms ++ ns) ≡ states ms ++ states ns
unfolding states
states-append [] ns = refl
states-append (m ∷ ms) ns = ap (λ l. decode_payload m.payload ∷ l) (states-append ms ns)

-- A session between rounds: its parser holds no byte, its axes are in range, and its recording and
-- its drawings are those of the messages `ms`.
pub record Runs (ms : List Message) (s : Session) : Type 0 where
  pub idle : IsIdle s.parser
  pub empty : contents s.parser ≡ []
  pub in_range : InRange s.emu
  pub pushes : All IsPush ms
  pub recorded : s.recorded ≡ stream ms
  pub drawn : s.drawn ≡ states ms

-- The array `frame` of 64 bytes has room for the packet.
round_packet :
    (stack : List ℕ) (m : Message)
    → length stack ≡ 64
    → length m.payload ≡ 17
    → build_packet (some stack) 64 m.header (some m.payload) 17
      ≡ (pos 30, some (packet m.header m.payload ++ drop 30 stack))
round_packet stack m room size =
    subst
      (λ n.
        build_packet (some stack) 64 m.header (some m.payload) n
        ≡ (pos (13 + n), some (packet m.header m.payload ++ drop (13 + n) stack)))
      size
      (build_packet_lem stack 64 m.header m.payload
        (omega (arith, size), omega (arith, size), omega (arith, room)))

-- The call of `rcm_feed` on it.
send_lem :
    (s : Session) (m : Message) (rest : List ℕ)
    → IsPush m
    → length m.payload ≡ 17
    → IsIdle s.parser
    → contents s.parser ≡ []
    → (p : Parser) × (send s (pos 30, some (packet m.header m.payload ++ rest))
        ≡ some (record s {
          parser = p;
          parsed = decode_payload m.payload;
          recorded = s.recorded ++ packet m.header m.payload;
        }))
      × IsIdle p
      × (contents p ≡ [])
unfolding send
send_lem s m rest v size idle empty =
    let (p, e, none_left, idle2) = feed-stream s.parser (m ∷ []) idle empty (v, tt) in
    (
      p,
      ap (λ l. fed s l (feed (some s.parser) (some l))) taken
          ∙ ap (fed s frame) (ap (λ l. feed (some s.parser) (some l)) (sym only) ∙ e)
          ∙ (unfold fed called states in refl),
      idle2,
      none_left,
    )
  where
    frame : List ℕ
    frame = packet m.header m.payload

    taken : take 30 (frame ++ rest) ≡ frame
    taken =
        ap (λ k. take k (frame ++ rest)) {x = 30} {y = length frame}
          (omega (arith, length-packet m.header m.payload, size))
        ∙ take-append frame rest

    only : stream (m ∷ []) ≡ frame
    only = unfold stream in append-nil frame

-- A round of a session sends one message, and draws the state that the emulator then has.
pub round_lem :
    (k : Curses) (stack : List ℕ) (events : List Event) (ms : List Message) (s : Session)
    → length stack ≡ 64
    → Runs ms s
    → let e = handle_all k s.emu events in
      let m = sent s.seq e in
      (t : Session) × (round k stack events s ≡ some t)
      × Runs (ms ++ (m ∷ [])) t
      × (t.emu ≡ decay_sticks e)
      × (t.drawn ≡ s.drawn ++ (shown e ∷ []))
unfolding round finish
round_lem k stack events ms s room v =
    let (p, eq, idle, empty) =
      send_lem (record s { emu = e }) m (drop 30 stack) push size v.idle v.empty in
    (
      finish (record s {
        emu = e;
        parser = p;
        parsed = decode_payload m.payload;
        recorded = s.recorded ++ frame;
      }),
      ap (λ b. after (send (record s { emu = e }) b)) (round_packet stack m room size)
          ∙ ap after eq,
      record {
        idle = idle;
        empty = empty;
        in_range = decay_sticks-Preserves e in_range;
        pushes = All-append IsPush ms (m ∷ []) v.pushes (push, tt);
        recorded = ap₂ (λ a b. a ++ b) v.recorded (sym only) ∙ sym (stream-append ms (m ∷ []));
        drawn =
            ap (λ a. a ++ (decode_payload m.payload ∷ [])) v.drawn
            ∙ ap (λ a. states ms ++ a) {x = decode_payload m.payload ∷ []} {y = states (m ∷ [])}
                (unfold states in refl)
            ∙ sym (states-append ms (m ∷ []));
      },
      refl,
      ap (λ x. s.drawn ++ (x ∷ [])) (decode-build e (InRange-FitsAxes e in_range)),
    )
  where
    after : Option Session → Option Session
    after o = elim o [ none ↦ none | some t ↦ some (finish t) ]

    e : EmuState
    e = handle_all k s.emu events

    m : Message
    m = sent s.seq e

    frame : List ℕ
    frame = packet m.header m.payload

    only : stream (m ∷ []) ≡ frame
    only = unfold stream in append-nil frame

    push : IsPush m
    push = sent-IsPush s.seq e

    size : length m.payload ≡ 17
    size = length-build_payload e

    in_range : InRange e
    in_range = handle_all-InRange k s.emu events v.in_range
