-- ===== src/Fuzz/Tests.antt =====
-- Runs of the fuzz harnesses on a few inputs.
use rc_monitor.Base.{
  ℕ, ◌≡◌, arith, List, [], ◌∷◌, length-replicate, replicate, zero, All, IsBytes, some, true, length,
}
use rc_monitor.State.{RcState}
use rc_monitor.Parser.{Parser}
use rc_monitor.Fuzz.{initialize, feed_input, build_input, run_inputs}
use rc_monitor.Fuzz.Run.{IsReady, Each}
use rc_monitor.Fuzz.Feed.{AsNew, run_inputs-feed_input}
use rc_monitor.Fuzz.Build.{Tested, run_inputs-build_input}

-- The start of a frame, cut off; noise; and what makes a push packet for fuzz_build_packet.
abbrev inputs : List (List ℕ)
inputs =
    (0x55 ∷ 0x0e ∷ 4 ∷ 0x66 ∷ [])
    ∷ (1 ∷ 2 ∷ 3 ∷ [])
    ∷ (10 ∷ 6 ∷ 1 ∷ 0 ∷ 0 ∷ 0 ∷ 6 ∷ 5 ∷ 0 ∷ 0 ∷ 1 ∷ 0 ∷ 0 ∷ 0 ∷ 4 ∷ 0 ∷ 4 ∷ 66 ∷ 4 ∷ 0 ∷ 4 ∷ 0 ∷ 4
        ∷ 0 ∷ 4 ∷ [])
    ∷ []

inputs-IsBytes : All IsBytes inputs
inputs-IsBytes = omega arith

unfoldable stack : List ℕ
stack = replicate 1400 0

stack-length : length stack ≡ 1400
unfolding stack
stack-length = length-replicate 1400 zero

run_inputs-feed_input_example :
    (css : List (List RcState)) × (q : Parser) × (run_inputs feed_input inputs (initialize true)
      ≡ some (css, some q))
    × Each AsNew inputs css
    × IsReady q
run_inputs-feed_input_example = run_inputs-feed_input inputs inputs-IsBytes

run_inputs-build_input_example :
    (css : List (List RcState)) × (q : Parser) × (run_inputs
        (build_input stack)
        inputs
        (initialize true)
      ≡ some (css, some q))
    × Each Tested inputs css
    × IsReady q
run_inputs-build_input_example = run_inputs-build_input stack inputs stack-length inputs-IsBytes
