-- ===== src/Fuzz/Feed.antt =====
-- What test/fuzz_feed.c does with its inputs.
use rc_monitor.Base.{
  ℕ, zero, suc, ◌+◌, ◌<◌, ◌≤◌, ◌≡◌, refl, sym, ap, ◌∙◌, subst, arith, inl, inr, true, List, [], ◌∷◌,
  ◌++◌, length, take, drop, drop-drop, append-take-drop, append-nil, append_assoc, All, All-take,
  All-drop, IsBytes, some, ltb, ltb→lt, ltb→ge, Bool-cases,
}
use rc_monitor.State.{RcState}
use rc_monitor.Scan.{Scans, stop}
use rc_monitor.Scan.Laws.{Scans-append, Scans-functional}
use rc_monitor.Parser.{Parser, fresh, feed}
use rc_monitor.Parser.Ring.{contents}
use rc_monitor.Parser.Valid.{fresh-IsValid}
use rc_monitor.Parser.Decode.{IsIdle, delivered, outcomes, states_of, delivered-append}
use rc_monitor.Parser.Feed.{feed_lem, fresh-IsIdle}
use rc_monitor.Fuzz.{initialize, chunk_at, and_then, feed_from, feed_input, run_inputs}
use rc_monitor.Fuzz.Run.{IsReady, reset-IsReady, Each, run_inputs_lem}

-- A chunk lies within the input and is not empty.
chunk_at_lem :
    (input : List ℕ) (offset : ℕ)
    → offset < length input
    → (1 ≤ chunk_at input offset) × (offset + chunk_at input offset ≤ length input)
unfolding chunk_at
chunk_at_lem input offset h = ground arith

drop_all : (n : ℕ) (xs : List ℕ) → length xs ≤ n → drop n xs ≡ []
drop_all zero [] h = refl
drop_all zero (x ∷ xs) h = absurd (omega arith)
drop_all (suc n) [] h = refl
drop_all (suc n) (x ∷ xs) h = drop_all n xs (omega arith)

-- The loop from `offset` on divides what the parser holds and the rest of the input.
feed_from_lem :
    (fuel : ℕ) (input : List ℕ) (offset : ℕ) (p : Parser)
    → offset ≤ length input
    → length input < fuel + offset
    → IsBytes input
    → IsIdle p
    → (fs : List (List ℕ)) × (q : Parser) × (feed_from fuel input offset (some p)
        ≡ some (delivered fs, some q))
      × Scans (contents p ++ drop offset input) fs (contents q)
      × IsIdle q
unfolding feed_from and_then
feed_from_lem zero input offset p place enough bytes v = absurd (omega arith)
feed_from_lem (suc fuel) input offset p place enough bytes v =
    elim (Bool-cases (ltb offset (length input))) [
      | inl inside ↦
          let k : ℕ = chunk_at input offset in
          let (one, within) = chunk_at_lem input offset (ltb→lt offset (length input) inside) in
          let left = drop offset input in
          let (fs, q, e, t, w, lt) =
            feed_lem p (take k left) v
              (All-take (λ b. b < 256) k left (All-drop (λ b. b < 256) offset input bytes)) in
          let (gs, r, d, u, x) =
            feed_from_lem fuel input (offset + k) q within (omega (arith, one)) bytes w in
          (
            fs ++ gs,
            r,
            rw (inside, e, and_then, d) (ap (λ l. some (l, some r)) (sym (delivered-append fs gs))),
            subst (λ l. Scans l (fs ++ gs) (contents r))
                (append_assoc (contents p) (take k left) (drop k left)
                  ∙ ap (λ l. contents p ++ l) (append-take-drop k left))
                (Scans-append (drop k left) t (
                  subst (λ l. Scans (contents q ++ l) gs (contents r))
                    (sym (drop-drop offset k input)) u)),
            x,
          )
      | inr past ↦ (
        [],
        p,
        (unfold delivered outcomes states_of in rw past refl),
        subst (λ l. Scans l [] (contents p))
            (sym (append-nil (contents p))
              ∙ ap (λ l. contents p ++ l)
                  (sym (drop_all offset input (ltb→ge offset (length input) past))))
            (stop v.waiting),
        v,
      )
    ]

-- The calls that an input leads to on a new parser, fed at once.
abbrev pub AsNew : List ℕ → List RcState → Type 0
AsNew input calls =
    (r : Parser) × (feed (some fresh) (some input) ≡ some (length calls, calls, some r))

-- One input leads to the calls that it leads to on a new parser, fed at once, and leaves the parser
-- ready for the next.
feed_input_lem :
    (input : List ℕ) (p : Parser)
    → IsBytes input
    → IsReady p
    → (calls : List RcState) × (q : Parser) × (feed_input input (some p) ≡ some (calls, some q))
      × AsNew input calls
      × IsReady q
unfolding feed_input
feed_input_lem input p bytes v =
    let (fs, q, e, t, w) =
      feed_from_lem (suc (length input)) input 0 p (omega arith) (omega arith) bytes v.idle in
    let (gs, r, d, u, x, lt) = feed_lem fresh input fresh-IsIdle bytes in
    let same =
      Scans-functional (subst (λ l. Scans (l ++ input) gs (contents r)) fresh-IsValid.1 u)
        (subst (λ l. Scans (l ++ input) fs (contents q)) v.empty t) in
    let (z, cleared, ready) = reset-IsReady q w.valid.ring_ok in
    (
      delivered fs,
      z,
      rw (e, feed_input) (ap (λ y. some (delivered fs, y)) cleared),
      (r, d ∙ ap (λ l. some (length l, l, some r)) (ap delivered same.0)),
      ready,
    )

-- From the parser that LLVMFuzzerInitialize makes, fuzz_feed runs through any inputs. However it cuts
-- an input into chunks, and whatever the inputs before it, it leads to the calls of the callback that
-- the whole input leads to, fed at once to a new parser. In the end the parser is valid and holds no
-- byte.
pub run_inputs-feed_input :
    (inputs : List (List ℕ))
    → All IsBytes inputs
    → (css : List (List RcState)) × (q : Parser) × (run_inputs feed_input inputs (initialize true)
        ≡ some (css, some q))
      × Each AsNew inputs css
      × IsReady q
run_inputs-feed_input = run_inputs_lem feed_input AsNew feed_input_lem
