-- ===== src/Recording/Emulated.antt =====
-- A recording of the emulator, checked by test/verify_recording.c.
use Prim.Native.String.{String}
use rc_monitor.Base.{
  ℕ, ◌<◌, ◌≡◌, sym, ◌∙◌, subst, List, [], ◌∷◌, ◌++◌, length, All, IsBytes, some, Bool, true, false,
}
use rc_monitor.State.{RcState}
use rc_monitor.Parser.{Parser, create, fresh, feed}
use rc_monitor.Parser.Chunks.{joined}
use rc_monitor.Emulator.Input.{Curses, centred}
use rc_monitor.Emulator.Session.Replay.{wanted}
use rc_monitor.Emulator.Main.{Input, Opt, Run, exited, file, main}
use rc_monitor.Emulator.Main.Exit.{Outcome, usage, no_file, no_memory, quit, on_and_on, main_lem}
use rc_monitor.Emulator.Main.Loop.{until_quit}
use rc_monitor.Recording.{
  Stdio, total_line, destroyed, closed, with_created, with_file, verify_recording,
}
use rc_monitor.Recording.Exit.{lines, Yields, printed_lem}

-- What `main` of the emulator leaves, by the value that it returns.
left_by_quit :
    (k : Curses) (os : List Opt) (opened allocated : Bool) (is : List (List ℕ × List Input))
    (bytes : List ℕ) (drawn : List RcState) {r : Run}
    → Outcome k os opened allocated is r
    → r ≡ exited 0 (some bytes) drawn
    → (drawn ≡ wanted k centred (until_quit k is))
      × (q : Parser) × (feed (some fresh) (some bytes) ≡ some (length drawn, drawn, some q))
unfolding file
left_by_quit k os opened allocated is bytes drawn (usage u) e = cc
left_by_quit k os opened allocated is bytes drawn (no_file a b) e = cc
left_by_quit k os opened allocated is bytes drawn (no_memory rec a b) e = cc
left_by_quit k os opened allocated is bytes drawn (quit true bs ss q a m b w f) e =
    let states_same : ss ≡ drawn = cc in
    let bytes_same : bs ≡ bytes = cc in
    (
      sym states_same ∙ w,
      q,
      subst (λ l. feed (some fresh) (some l) ≡ some (length drawn, drawn, some q)) bytes_same
          (subst (λ l. feed (some fresh) (some bs) ≡ some (length l, l, some q)) states_same f),
    )
left_by_quit k os opened allocated is bytes drawn (quit false bs ss q a m b w f) e = cc
left_by_quit k os opened allocated is bytes drawn (on_and_on rec s a m b c) e = cc

-- Where the emulator's main returned 0 and left a file, and verify_recording has memory for its
-- parser and opens a file that yields these bytes in pieces, with more fuel than pieces, it returns
-- 0 and prints a line for each round that the emulator drew, in order and numbered from 1, with the
-- state that the round's input asked for, and then their number.
pub main-verify_recording :
    {F : Type 0} (k : Curses) (os : List Opt) (opened allocated : Bool)
    (is : List (List ℕ × List Input)) (bytes : List ℕ) (drawn : List RcState) (stdio : Stdio F)
    (fuel : ℕ) (a path : String) (f : F) (cs : List (List ℕ))
    → All (λ i. length i.0 ≡ 64) is
    → main k os opened allocated is ≡ some (exited 0 (some bytes) drawn)
    → stdio.fopen path ≡ some f
    → Yields stdio f cs
    → joined cs ≡ bytes
    → All IsBytes cs
    → length cs < fuel
    → (drawn ≡ wanted k centred (until_quit k is))
      × (verify_recording stdio fuel true (a ∷ path ∷ [])
          ≡ some (0, lines 0 drawn ++ (total_line (length drawn) path ∷ destroyed ∷ closed ∷ [])))
unfolding verify_recording with_file
main-verify_recording k os opened allocated is bytes drawn stdio fuel a path f cs sized ran found_it
      y whole are_bytes enough =
    let (r, e, out) = main_lem k os opened allocated is sized in
    let same : r ≡ exited 0 (some bytes) drawn = cc in
    let (asked, q, replayed) = left_by_quit k os opened allocated is bytes drawn out same in
    let (calls, s, fed, printed) = printed_lem stdio fuel path y enough are_bytes in
    let fed_whole : feed (some fresh) (some bytes) ≡ some (length calls, calls, some s) =
      subst (λ l. feed (some fresh) (some l) ≡ some (length calls, calls, some s)) whole fed in
    let agree : calls ≡ drawn = cc in
    (
      asked,
      rw (found_it, with_file)
          (subst
            (λ l.
              with_created stdio fuel path f (create true true)
              ≡ some (0, lines 0 l ++ (total_line (length l) path ∷ destroyed ∷ closed ∷ [])))
            agree printed),
    )
