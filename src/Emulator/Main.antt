-- ===== src/Emulator/Main.antt =====
-- emulator/rc_emulator.c: `main` around the rounds of Emulator/Session: its options, the ways it ends,
-- and the input up to the key that ends it. The set-up of the terminal is not modelled.
pub mod Loop
pub mod Exit
mod Tests
use rc_monitor.Base.{
  ℕ, List, [], ◌∷◌, ◌++◌, Option, none, some, Bool, true, false, not, ◌&&◌, ◌==◌, if◌then◌else◌,
}
use rc_monitor.State.{RcState}
use rc_monitor.Parser.{Parser, create}
use rc_monitor.Emulator.{EmuState}
use rc_monitor.Emulator.Input.{Curses, Mouse, handle_key}
use rc_monitor.Emulator.Input.Pointer.{handle_mouse}
use rc_monitor.Emulator.Session.{Session, round, start}

-- What `getch` yields, and what `getmouse` would then.
pub record Input : Type 0 where
  pub ch : ℕ
  pub mev : Option Mouse

-- One turn of the inner loop, where the key is not 'q'.
unfoldable pub dispatch : Curses → Input → EmuState → EmuState
dispatch k i e =
    if i.ch == k.key_mouse
    then (elim i.mev [ none ↦ e | some m ↦ handle_mouse k e m ])
    else handle_key k e i.ch

-- The inner loop, up to `ERR` or 'q', and whether it was 'q'.
unfoldable pub read_input : Curses → List Input → EmuState → Bool × EmuState
unfolding dispatch
read_input k [] e = (false, e)
read_input k (i ∷ is) e =
    let rest = read_input k is (dispatch k i e) in if i.ch == b'q' then (true, e) else rest

-- Behind the inner loop: `goto done`, or the rest of the round and what follows it.
unfoldable pub after_input :
    Curses
    → List ℕ
    → (Session → Option (Bool × Session))
    → Session
    → Bool × EmuState
    → Option (Bool × Session)
after_input k stack rest s (true, e) = some (true, record s { emu = e })
after_input k stack rest s (false, e) = elim (round k stack [] (record s { emu = e })) [
  | none ↦ none
  | some t ↦ rest t
]

-- The loop over rounds with the array on the stack and the input of each, and whether it was left.
unfoldable pub loop : Curses → List (List ℕ × List Input) → Session → Option (Bool × Session)
unfolding after_input
loop k [] s = some (false, s)
loop k (i ∷ is) s = after_input k i.0 (λ t. loop k is t) s (read_input k i.1 s.emu)

-- What `getopt` yields: 'o' with its argument, or anything else.
pub data Opt : Type 0 where
  output other : Opt

-- Whether a recording is asked for; `none` is the usage message.
unfoldable pub parse_options : List Opt → Bool → Option Bool
parse_options [] recording = some recording
parse_options (output ∷ os) recording = parse_options os true
parse_options (other ∷ os) recording = none

-- What has come of `main`: the value returned, with what was written to the file, if one was opened,
-- and what was drawn; or it is still in its loop.
pub data Run : Type 0 where
  exited : ℕ → Option (List ℕ) → List RcState → Run
  running : Session → Run

-- `if (g_rec_fp)` around the calls of `fwrite`: the file has all that was recorded, or there is none.
unfoldable pub file : Bool → List ℕ → Option (List ℕ)
file true bytes = some bytes
file false bytes = none

unfoldable pub leave : Bool → Option (Bool × Session) → Option Run
leave recording none = none
leave recording (some (true, s)) = some (exited 0 (file recording s.recorded) s.drawn)
leave recording (some (false, s)) = some (running s)

-- From `rcm_create` on.
unfoldable pub with_parser : Curses → Bool → List (List ℕ × List Input) → Option Parser → Option Run
with_parser k recording is none = some (exited 1 (file recording []) [])
with_parser k recording is (some p) = leave recording (loop k is (record start { parser = p }))

-- From `fopen` on, and whether it succeeds.
unfoldable pub with_options :
    Curses → Bool → Bool → List (List ℕ × List Input) → Option Bool → Option Run
with_options k opened allocated is none = some (exited 1 none [])
with_options k opened allocated is (some recording) =
    if recording && not opened
    then some (exited 1 none [])
    else with_parser k recording is (create true allocated)

-- `main`
unfoldable pub main : Curses → List Opt → Bool → Bool → List (List ℕ × List Input) → Option Run
main k os opened allocated is = with_options k opened allocated is (parse_options os false)
