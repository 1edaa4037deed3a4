-- ===== src/Fuzz/Run.antt =====
-- The inputs of a fuzzer, one after the other, on one parser.
use rc_monitor.Base.{ℕ, ◌≡◌, refl, ap, List, [], ◌∷◌, length, All, IsBytes, Option, some, true}
use rc_monitor.State.{RcState}
use rc_monitor.Scan.Laws.{front_empty}
use rc_monitor.Parser.{Parser, fresh, create, reset}
use rc_monitor.Parser.Ring.{IsRing, contents}
use rc_monitor.Parser.Valid.{reset_lem, fresh-IsValid}
use rc_monitor.Parser.Decode.{IsIdle}
use rc_monitor.Parser.Feed.{fresh-IsIdle}
use rc_monitor.Fuzz.{initialize, run_inputs}

-- A parser between inputs.
pub record IsReady (p : Parser) : Type 0 where
  pub idle : IsIdle p
  pub empty : contents p ≡ []

pub reset-IsReady : (p : Parser) → IsRing p → (q : Parser) × (reset (some p) ≡ some q) × IsReady q
reset-IsReady p v =
    let (q, cleared, valid, none_left) = reset_lem p v in
    (
      q,
      cleared,
      record {
        idle = record { valid = valid; waiting = front_empty (contents q) (ap length none_left) };
        empty = none_left;
      },
    )

-- `Each R inputs css`: each of the inputs is in the relation with the calls listed for it.
pub data Each (R : List ℕ → List RcState → Type 0)
    : List (List ℕ) → List (List RcState) → Type 0 where
  no_more : Each R [] []
  one_more :
      {i : List ℕ} {is : List (List ℕ)} {calls : List RcState} {css : List (List RcState)}
      → R i calls
      → Each R is css
      → Each R (i ∷ is) (calls ∷ css)

module _ (test : List ℕ → Option Parser → Option (List RcState × Option Parser))
    (R : List ℕ → List RcState → Type 0)
    (step : (i : List ℕ) (p : Parser)
      → IsBytes i
      → IsReady p
      → (calls : List RcState) × (q : Parser) × (test i (some p) ≡ some (calls, some q))
        × R i calls
        × IsReady q) where
  run_lem :
      (inputs : List (List ℕ)) (p : Parser)
      → All IsBytes inputs
      → IsReady p
      → (css : List (List RcState)) × (q : Parser) × (run_inputs test inputs (some p)
          ≡ some (css, some q))
        × Each R inputs css
        × IsReady q
  unfolding run_inputs
  run_lem [] p bytes v = ([], p, refl, no_more, v)
  run_lem (i ∷ is) p bytes v =
      let (calls, q, e, d, w) = step i p bytes.0 v in
      let (css, z, f, t, x) = run_lem is q bytes.1 w in
      (calls ∷ css, z, rw (e, f, run_inputs) refl, one_more d t, x)

  -- What holds of each input on a parser between inputs holds of each in a run.
  pub run_inputs_lem :
      (inputs : List (List ℕ))
      → All IsBytes inputs
      → (css : List (List RcState)) × (q : Parser) × (run_inputs test inputs (initialize true)
          ≡ some (css, some q))
        × Each R inputs css
        × IsReady q
  unfolding initialize create
  run_inputs_lem inputs bytes =
      run_lem inputs fresh bytes (record { idle = fresh-IsIdle; empty = fresh-IsValid.1 })
