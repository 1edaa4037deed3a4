-- ===== src/Emulator/Main/Exit.antt =====
-- How `main` ends, and what it leaves behind.
use rc_monitor.Base.{
  ℕ, ◌≡◌, refl, ap, ◌∙◌, List, [], length, Option, none, some, Bool, true, false, Bool-cases, All,
  inl, inr,
}
use rc_monitor.State.{RcState}
use rc_monitor.Parser.{Parser, create, fresh, feed}
use rc_monitor.Emulator.Input.{Curses, centred}
use rc_monitor.Emulator.Session.{Session, start}
use rc_monitor.Emulator.Session.Replay.{wanted, rounds_replay}
use rc_monitor.Emulator.Main.{
  Input, loop, Opt, parse_options, Run, exited, running, file, leave, with_parser, with_options,
  main,
}
use rc_monitor.Emulator.Main.Loop.{until_quit, ends, loop_lem, until_quit-Sized}

-- `main` gets past `fopen`: the options ask for a recording or not, and the file, if they do, is opened.
pub record HasFile (os : List Opt) (opened recording : Bool) : Type 0 where
  pub asked : parse_options os false ≡ some recording
  pub file_opened : recording ≡ true → opened ≡ true

-- How `main` can come out. No two of these can hold for the same arguments.
pub data Outcome (k : Curses) (os : List Opt) (opened allocated : Bool)
    (is : List (List ℕ × List Input)) : Run → Type 0 where
  usage : parse_options os false ≡ none → Outcome k os opened allocated is (exited 1 none [])
  no_file :
      parse_options os false ≡ some true
      → opened ≡ false
      → Outcome k os opened allocated is (exited 1 none [])
  no_memory :
      (recording : Bool)
      → HasFile os opened recording
      → allocated ≡ false
      → Outcome k os opened allocated is (exited 1 (file recording []) [])
  quit :
      (recording : Bool) (bytes : List ℕ) (states : List RcState) (q : Parser)
      → HasFile os opened recording
      → allocated ≡ true
      → ends is ≡ true
      → states ≡ wanted k centred (until_quit k is)
      → feed (some fresh) (some bytes) ≡ some (length states, states, some q)
      → Outcome k os opened allocated is (exited 0 (file recording bytes) states)
  on_and_on :
      (recording : Bool) (s : Session)
      → HasFile os opened recording
      → allocated ≡ true
      → ends is ≡ false
      → s.drawn ≡ wanted k centred (until_quit k is)
      → Outcome k os opened allocated is (running s)

left :
    (k : Curses) (os : List Opt) (opened recording : Bool) (is : List (List ℕ × List Input))
    → HasFile os opened recording
    → All (λ i. length i.0 ≡ 64) is
    → (r : Run) × (leave recording (loop k is start) ≡ some r) × Outcome k os opened true is r
unfolding leave
left k os opened recording is has_file sized =
    let (t, q, e, drew, in_range, replayed) =
      rounds_replay k (until_quit k is) (until_quit-Sized k is sized) in
    let (u, l, recorded, drawn) = loop_lem k is start t e in
    elim (Bool-cases (ends is)) [
      | inl done ↦ (
        exited 0 (file recording u.recorded) u.drawn,
        ap (leave recording) l ∙ rw done refl,
        quit recording u.recorded u.drawn q has_file refl done (drawn ∙ drew)
            (rw (recorded, drawn) replayed),
      )
      | inr more ↦ (
        running u,
        ap (leave recording) l ∙ rw more refl,
        on_and_on recording u has_file refl more (drawn ∙ drew),
      )
    ]

-- From `rcm_create` on.
from_parser :
    (k : Curses) (os : List Opt) (opened allocated recording : Bool)
    (is : List (List ℕ × List Input))
    → HasFile os opened recording
    → All (λ i. length i.0 ≡ 64) is
    → (r : Run) × (with_parser k recording is (create true allocated) ≡ some r)
      × Outcome k os opened allocated is r
unfolding with_parser create start
from_parser k os opened false recording is has_file sized =
    (exited 1 (file recording []) [], refl, no_memory recording has_file refl)
from_parser k os opened true recording is has_file sized =
    left k os opened recording is has_file sized

from_options :
    (k : Curses) (os : List Opt) (opened allocated : Bool) (is : List (List ℕ × List Input))
    (o : Option Bool)
    → parse_options os false ≡ o
    → All (λ i. length i.0 ≡ 64) is
    → (r : Run) × (with_options k opened allocated is o ≡ some r)
      × Outcome k os opened allocated is r
unfolding with_options
from_options k os opened allocated is none asked sized = (exited 1 none [], refl, usage asked)
from_options k os false allocated is (some true) asked sized =
    (exited 1 none [], refl, no_file asked refl)
from_options k os true allocated is (some true) asked sized =
    from_parser k os true allocated true is (record { asked = asked; file_opened = λ e. refl })
      sized
from_options k os opened allocated is (some false) asked sized =
    from_parser k os opened allocated false is (record { asked = asked; file_opened = λ e. cc })
      sized

-- Whatever its options and its input, and with arrays of 64 bytes on its stack, main returns 1, with
-- nothing drawn or recorded, for an unknown option, where a recording is asked for and its file
-- cannot be opened, or else without memory for the parser. Only where none of these holds does it go
-- on: it returns 0 at the first 'q', with each round before it drawn as its input asked and a file,
-- if one is asked for, that decodes to these states; without a 'q' it is still in its loop, with its
-- rounds drawn in the same way.
pub main_lem :
    (k : Curses) (os : List Opt) (opened allocated : Bool) (is : List (List ℕ × List Input))
    → All (λ i. length i.0 ≡ 64) is
    → (r : Run) × (main k os opened allocated is ≡ some r) × Outcome k os opened allocated is r
unfolding main
main_lem k os opened allocated is sized =
    from_options k os opened allocated is (parse_options os false) refl sized
