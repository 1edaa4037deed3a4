-- ===== src/Recording.antt =====
-- test/verify_recording.c: a recording is read in pieces, fed to a new parser, and each decoded state
-- is printed. The C library's files are a parameter, `Stdio`; what the program prints, and its calls
-- of rcm_destroy and fclose, are a list of actions in their order.
pub mod Exit
pub mod Emulated
mod Tests
use Prim.Native.String.{String}
use rc_monitor.Base.{ℕ, zero, suc, ◌+◌, List, [], ◌∷◌, ◌++◌, Option, none, some, Bool, true}
use rc_monitor.Base.Int.{ℤ}
use rc_monitor.State.{RcState}
use rc_monitor.Payload.{flight_mode_str}
use rc_monitor.Parser.{Parser, create, feed}
use rc_monitor.Emulator.Session.{zeroed}

-- `fopen` of a path, with "rb", and `fread` of up to so many bytes: those read, and the stream behind.
pub record Stdio (F : Type 0) : Type 0 where
  pub fopen : String → Option F
  pub fread : F → ℕ → List ℕ × F

-- The numbers and texts that `cb` hands to `printf`, in their order.
pub record Line : Type 0 where
  pub number : ℕ
  pub left_horizontal : ℤ
  pub left_vertical : ℤ
  pub right_horizontal : ℤ
  pub right_vertical : ℤ
  pub mode : String
  pub pause : Bool
  pub gohome : Bool
  pub shutter : Bool
  pub record_button : Bool
  pub left_wheel : ℤ
  pub right_wheel : ℤ
  pub delta : ℤ

-- What the program does to its surroundings.
pub data Action : Type 0 where
  usage : Option String → Action
  fopen_failed create_failed : Action
  frame_line : Line → Action
  total_line : ℕ → String → Action
  destroyed closed : Action

-- `g_count`, `g_last`, and what was printed.
pub record Globals : Type 0 where
  pub count : ℕ
  pub last : RcState
  pub printed : List Action

abbrev pub initial : Globals
initial = record { count = 0; last = zeroed; printed = [] }

-- The arguments of `printf` for the state and its number.
unfoldable pub line_of : ℕ → RcState → Line
line_of n s = record {
  number = n;
  left_horizontal = s.stick_left.horizontal;
  left_vertical = s.stick_left.vertical;
  right_horizontal = s.stick_right.horizontal;
  right_vertical = s.stick_right.vertical;
  mode = flight_mode_str s.flight_mode;
  pause = s.pause;
  gohome = s.gohome;
  shutter = s.shutter;
  record_button = s.record_button;
  left_wheel = s.left_wheel;
  right_wheel = s.right_wheel;
  delta = s.right_wheel_delta;
}

-- `cb`
unfoldable pub cb : Globals → RcState → Globals
cb g s = record {
  count = g.count + 1;
  last = s;
  printed = g.printed ++ (frame_line (line_of (g.count + 1) s) ∷ []);
}

-- The calls of `cb` that one call of `rcm_feed` makes.
unfoldable pub cb_all : Globals → List RcState → Globals
cb_all g [] = g
cb_all g (s ∷ ss) = cb_all (cb g s) ss

-- The body of the loop, for the bytes in `buf`, with the rounds that follow it.
unfoldable pub feed_chunk :
    (Parser → Globals → Option (Globals × Parser))
    → List ℕ
    → Parser
    → Globals
    → Option (Globals × Parser)
feed_chunk rest [] p g = some (g, p)
feed_chunk rest (b ∷ bs) p g = elim (feed (some p) (some (b ∷ bs))) [
  | none ↦ none
  | some (n, calls, none) ↦ none
  | some (n, calls, some q) ↦ rest q (cb_all g calls)
]

module _ {F : Type 0} (stdio : Stdio F) where
  -- `while ((n = fread(buf, 1, sizeof(buf), fp)) > 0) rcm_feed(p, buf, n);` with fuel.
  unfoldable pub read_loop : ℕ → F → Parser → Globals → Option (Globals × Parser)
  read_loop zero f p g = none
  read_loop (suc fuel) f p g = let r = stdio.fread f 4096 in feed_chunk (read_loop fuel r.1) r.0 p g

  -- From `rcm_create` on: the value returned, and the actions.
  unfoldable pub with_created : ℕ → String → F → Option Parser → Option (ℕ × List Action)
  with_created fuel path f none = some (1, create_failed ∷ closed ∷ [])
  with_created fuel path f (some p) = elim (read_loop fuel f p initial) [
    | none ↦ none
    | some (g, q) ↦ some (0, g.printed ++ (total_line g.count path ∷ destroyed ∷ closed ∷ []))
  ]

  -- From `fopen` on.
  unfoldable pub with_file : ℕ → Bool → String → Option F → Option (ℕ × List Action)
  with_file fuel allocated path none = some (1, fopen_failed ∷ [])
  with_file fuel allocated path (some f) = with_created fuel path f (create true allocated)

  -- `main`, with the arguments `argv` and whether `calloc` succeeds.
  unfoldable pub verify_recording : ℕ → Bool → List String → Option (ℕ × List Action)
  verify_recording fuel allocated (a ∷ path ∷ []) = with_file fuel allocated path (stdio.fopen path)
  verify_recording fuel allocated (a ∷ b ∷ c ∷ more) = some (1, usage (some a) ∷ [])
  verify_recording fuel allocated (a ∷ []) = some (1, usage (some a) ∷ [])
  verify_recording fuel allocated [] = some (1, usage none ∷ [])
