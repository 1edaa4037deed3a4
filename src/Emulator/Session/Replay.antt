-- ===== src/Emulator/Session/Replay.antt =====
-- What a session draws is what its input asked for, and its recording holds the same states.
use rc_monitor.Base.{
  ℕ, ◌≡◌, refl, sym, ap, ap₂, ◌∙◌, List, [], ◌∷◌, ◌++◌, length, append-nil, append_assoc, some, All,
}
use rc_monitor.State.{RcState}
use rc_monitor.Parser.{Parser, fresh, feed}
use rc_monitor.Parser.Valid.{fresh-IsValid}
use rc_monitor.Parser.Feed.{fresh-IsIdle}
use rc_monitor.Packet.RoundTrip.{Message, stream}
use rc_monitor.Packet.Delivery.{states, feed-stream}
use rc_monitor.Emulator.{EmuState}
use rc_monitor.Emulator.RoundTrip.{shown}
use rc_monitor.Emulator.Input.{Curses, centred, decay_sticks}
use rc_monitor.Emulator.Axes.{InRange, centred-InRange}
use rc_monitor.Emulator.Session.{Event, Session, handle_all, rounds, start}
use rc_monitor.Emulator.Session.Step.{sent, Runs, round_lem}

-- The arrays of a session's rounds.
abbrev pub Sized : List ℕ × List Event → Type 0
Sized i = length i.0 ≡ 64

-- What the input asks for: in each round the emulator's state after the events, from that of the round
-- before, decayed.
unfoldable pub wanted : Curses → EmuState → List (List ℕ × List Event) → List RcState
wanted k e [] = []
wanted k e (i ∷ is) = let e = handle_all k e i.1 in shown e ∷ wanted k (decay_sticks e) is

rounds_lem :
    (k : Curses) (is : List (List ℕ × List Event)) (ms : List Message) (s : Session)
    → All Sized is
    → Runs ms s
    → (t : Session) × (ns : List Message) × (rounds k is s ≡ some t)
      × Runs ns t
      × (t.drawn ≡ s.drawn ++ wanted k s.emu is)
unfolding rounds wanted
rounds_lem k [] ms s sized v = (s, ms, refl, v, sym (append-nil s.drawn))
rounds_lem k (i ∷ is) ms s sized v =
    let e = handle_all k s.emu i.1 in
    let (t, eq, w, emu, drew) = round_lem k i.0 i.1 ms s sized.0 v in
    let (u, ns, f, x, rest) = rounds_lem k is (ms ++ (sent s.seq e ∷ [])) t sized.1 w in
    (
      u,
      ns,
      rw (eq, rounds) f,
      x,
      rest
          ∙ ap₂ (λ a b. a ++ wanted k b is) drew emu
          ∙ append_assoc s.drawn (shown e ∷ []) (wanted k (decay_sticks e) is),
    )

start-Runs : Runs [] start
unfolding start stream states
start-Runs = record {
  idle = fresh-IsIdle;
  empty = fresh-IsValid.1;
  in_range = centred-InRange;
  pushes = tt;
  recorded = refl;
  drawn = refl;
}

-- A session runs through any rounds in which the array `frame` has its 64 bytes, whatever those hold
-- and whatever the input and the codes of its events, and draws what the input asks for. Its axes stay in range. Its recording, fed to a new parser, leads to one call of
-- the callback for each state that was drawn, with that state, in order.
pub rounds_replay :
    (k : Curses) (is : List (List ℕ × List Event))
    → All Sized is
    → (t : Session) × (q : Parser) × (rounds k is start ≡ some t)
      × (t.drawn ≡ wanted k centred is)
      × InRange t.emu
      × (feed (some fresh) (some t.recorded) ≡ some (length t.drawn, t.drawn, some q))
rounds_replay k is sized =
    let (t, ms, e, v, drew) = rounds_lem k is [] start sized start-Runs in
    let (q, f, none_left, idle) = feed-stream fresh ms fresh-IsIdle fresh-IsValid.1 v.pushes in
    (
      t,
      q,
      e,
      drew ∙ (unfold start in refl),
      v.in_range,
      ap (λ r. feed (some fresh) (some r)) v.recorded
          ∙ f
          ∙ ap (λ d. some (length d, d, some q)) (sym v.drawn),
    )
