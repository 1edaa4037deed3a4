-- ===== src/Emulator/Main/Loop.antt =====
-- The loop of `main` in terms of events: the rounds before the one with 'q'.
use rc_monitor.Base.{
  ℕ, ◌≡◌, refl, sym, ap, ◌∙◌, List, [], ◌∷◌, ◌++◌, length, Option, none, some, Bool, true, false,
  Bool-cases, ◌||◌, ◌==◌, if◌then◌else◌, All, inl, inr,
}
use rc_monitor.Emulator.{EmuState}
use rc_monitor.Emulator.Input.{Curses, Mouse}
use rc_monitor.Emulator.Input.Pointer.{handle_mouse}
use rc_monitor.Emulator.Session.{Event, key, mouse, Session, handle, handle_all, round, rounds}
use rc_monitor.Emulator.Session.Replay.{Sized}
use rc_monitor.Emulator.Main.{Input, dispatch, read_input, after_input, loop}

-- The events in the input of a round, up to 'q'.
unfoldable pub event_of : Curses → Input → List Event
event_of k i =
    if i.ch == k.key_mouse
    then (elim i.mev [ none ↦ [] | some m ↦ mouse m ∷ [] ])
    else key i.ch ∷ []

unfoldable pub events : Curses → List Input → List Event
events k [] = []
events k (i ∷ is) = let rest = events k is in if i.ch == b'q' then [] else event_of k i ++ rest

-- Whether there is a 'q' among the keys of a round.
unfoldable pub quits : List Input → Bool
quits [] = false
quits (i ∷ is) = (i.ch == b'q') || quits is

-- The rounds before the one with 'q'.
unfoldable pub until_quit : Curses → List (List ℕ × List Input) → List (List ℕ × List Event)
until_quit k [] = []
until_quit k (i ∷ is) =
    let rest = until_quit k is in if quits i.1 then [] else (i.0, events k i.1) ∷ rest

unfoldable pub ends : List (List ℕ × List Input) → Bool
ends [] = false
ends (i ∷ is) = quits i.1 || ends is

handle_all-append :
    (k : Curses) (e : EmuState) (xs ys : List Event)
    → handle_all k e (xs ++ ys) ≡ handle_all k (handle_all k e xs) ys
unfolding handle_all
handle_all-append k e [] ys = refl
handle_all-append k e (x ∷ xs) ys = handle_all-append k (handle k e x) xs ys

dispatch_lem :
    (k : Curses) (i : Input) (e : EmuState) → dispatch k i e ≡ handle_all k e (event_of k i)
unfolding dispatch handle_all handle event_of
dispatch_lem k i e = elim (Bool-cases (i.ch == k.key_mouse)) [
  | inl t ↦ rw t (by_mouse i.mev)
  | inr f ↦ rw f refl
]
  where
    by_mouse :
        (m : Option Mouse)
        → elim m [ none ↦ e | some m ↦ handle_mouse k e m ]
          ≡ handle_all k e (elim m [ none ↦ [] | some m ↦ mouse m ∷ [] ])
    by_mouse none = refl
    by_mouse (some m) = refl

-- The inner loop handles the events in front of 'q'.
read_input_lem :
    (k : Curses) (is : List Input) (e : EmuState)
    → read_input k is e ≡ (quits is, handle_all k e (events k is))
unfolding read_input quits events
read_input_lem k [] e = unfold handle_all in refl
read_input_lem k (i ∷ is) e = elim (Bool-cases (i.ch == b'q')) [
  | inl t ↦ unfold handle_all in rw t refl
  | inr f ↦ rw f (
      read_input_lem k is (dispatch k i e)
      ∙ ap (λ x. (quits is, handle_all k x (events k is))) (dispatch_lem k i e)
      ∙ ap (λ x. (quits is, x)) (sym (handle_all-append k e (event_of k i) (events k is))))
]

-- A round that the specification has, and what follows it.
round_split :
    (k : Curses) (rest : List (List ℕ × List Event)) (o : Option Session) (t : Session)
    → elim o [ none ↦ none | some x ↦ rounds k rest x ] ≡ some t
    → (x : Session) × (o ≡ some x) × (rounds k rest x ≡ some t)
round_split k rest none t e = cc
round_split k rest (some x) t e = (x, refl, e)

round-handle_all :
    (k : Curses) (stack : List ℕ) (es : List Event) (s : Session)
    → round k stack [] (record s { emu = handle_all k s.emu es }) ≡ round k stack es s
unfolding round handle_all
round-handle_all k stack es s = refl

loop_quit :
    (k : Curses) (i : List ℕ × List Input) (is : List (List ℕ × List Input)) (s : Session)
    → quits i.1 ≡ true
    → loop k (i ∷ is) s ≡ some (true, record s { emu = handle_all k s.emu (events k i.1) })
unfolding loop after_input
loop_quit k i is s q = rw (read_input_lem k i.1 s.emu, q) refl

loop-round :
    (k : Curses) (i : List ℕ × List Input) (is : List (List ℕ × List Input)) (s x : Session)
    → quits i.1 ≡ false
    → round k i.0 (events k i.1) s ≡ some x
    → loop k (i ∷ is) s ≡ loop k is x
unfolding loop after_input
loop-round k i is s x q e =
    rw (read_input_lem k i.1 s.emu, q, after_input, round-handle_all k i.0 (events k i.1) s, e) refl

-- The loop is the rounds in front of the one with 'q', and what that one's input changes is not drawn.
pub loop_lem :
    (k : Curses) (is : List (List ℕ × List Input)) (s t : Session)
    → rounds k (until_quit k is) s ≡ some t
    → (u : Session) × (loop k is s ≡ some (ends is, u))
      × (u.recorded ≡ t.recorded)
      × (u.drawn ≡ t.drawn)
unfolding until_quit ends rounds
loop_lem k [] s t e =
    let same : s ≡ t = cc in
    (s, (unfold loop in refl), ap (λ x. x.recorded) same, ap (λ x. x.drawn) same)
loop_lem k (i ∷ is) s t e = elim (Bool-cases (quits i.1)) [
  | inl q ↦
      let at : until_quit k (i ∷ is) ≡ [] = rw q refl in
      let same : s ≡ t = cc (ap (λ l. rounds k l s) at, e) in
      (
        record s { emu = handle_all k s.emu (events k i.1) },
        loop_quit k i is s q ∙ rw q refl,
        ap (λ x. x.recorded) same,
        ap (λ x. x.drawn) same,
      )
  | inr go ↦
      let at : until_quit k (i ∷ is) ≡ (i.0, events k i.1) ∷ until_quit k is = rw go refl in
      let (x, now, later) =
        round_split k (until_quit k is) (round k i.0 (events k i.1) s) t
          (sym (ap (λ l. rounds k l s) at) ∙ e) in
      let (u, l, recorded, drawn) = loop_lem k is x t later in
      (u, loop-round k i is s x go now ∙ l ∙ rw go refl, recorded, drawn)
]

-- The rounds before 'q' have the arrays of the rounds.
pub until_quit-Sized :
    (k : Curses) (is : List (List ℕ × List Input))
    → All (λ i. length i.0 ≡ 64) is
    → All Sized (until_quit k is)
unfolding until_quit
until_quit-Sized k [] h = tt
until_quit-Sized k (i ∷ is) h = elim (Bool-cases (quits i.1)) [
  | inl q ↦ rw q tt
  | inr go ↦ rw go (h.0, until_quit-Sized k is h.1)
]
