-- ===== src/Parser/Chunks.antt =====
-- test/verify_recording.c: a recording is read and fed in chunks.
use rc_monitor.Base.{
  ℕ, ◌<◌, ◌≡◌, refl, sym, ap, ◌∙◌, subst, List, [], ◌∷◌, ◌++◌, length, append_assoc, append-nil,
  All, All-append, IsBytes, Option, some, none,
}
use rc_monitor.State.{RcState}
use rc_monitor.Scan.{Scans, stop}
use rc_monitor.Scan.Laws.{Scans-append, Scans-functional}
use rc_monitor.Parser.{Parser, feed}
use rc_monitor.Parser.Ring.{contents}
use rc_monitor.Parser.Decode.{IsIdle, delivered, outcomes, states_of, delivered-append}
use rc_monitor.Parser.Feed.{feed_lem}

-- `while ((n = fread(buf, 1, sizeof(buf), fp)) > 0) rcm_feed(p, buf, n);` for the chunks that `fread`
-- yields: the calls of the callback, which counts them, and the parser in the end.
unfoldable pub replay : Parser → List (List ℕ) → Option (List RcState × Parser)
replay p [] = some ([], p)
replay p (c ∷ cs) = elim (feed (some p) (some c)) [
  | none ↦ none
  | some (n, calls, none) ↦ none
  | some (n, calls, some q) ↦ elim (replay q cs) [
    | none ↦ none
    | some (more, r) ↦ some (calls ++ more, r)
  ]
]

-- The file.
unfoldable pub joined : List (List ℕ) → List ℕ
joined [] = []
joined (c ∷ cs) = c ++ joined cs

joined-IsBytes : (cs : List (List ℕ)) → All IsBytes cs → IsBytes (joined cs)
unfolding joined
joined-IsBytes [] v = tt
joined-IsBytes (c ∷ cs) v = All-append (λ b. b < 256) c (joined cs) v.0 (joined-IsBytes cs v.1)

replay-Scans :
    (p : Parser) (cs : List (List ℕ))
    → IsIdle p
    → All IsBytes cs
    → (fs : List (List ℕ)) × (q : Parser) × (replay p cs ≡ some (delivered fs, q))
      × Scans (contents p ++ joined cs) fs (contents q)
unfolding replay joined
replay-Scans p [] v bytes = (
  [],
  p,
  (unfold delivered outcomes states_of in refl),
  subst (λ l. Scans l [] (contents p)) (sym (append-nil (contents p))) (stop v.waiting),
)
replay-Scans p (c ∷ cs) v bytes =
    let (fs, q, e, t, w, lt) = feed_lem p c v bytes.0 in
    let (gs, r, d, u) = replay-Scans q cs w bytes.1 in
    (
      fs ++ gs,
      r,
      rw (e, d, replay) (ap (λ l. some (l, r)) (sym (delivered-append fs gs))),
      subst (λ l. Scans l (fs ++ gs) (contents r)) (append_assoc (contents p) c (joined cs))
          (Scans-append (joined cs) t u),
    )

-- Replaying a file on a parser between calls succeeds, and makes the calls and leaves the queue that
-- feeding it in one piece does, however it is cut into chunks.
pub replay_lem :
    (p : Parser) (cs : List (List ℕ))
    → IsIdle p
    → All IsBytes cs
    → (calls : List RcState) × (q : Parser) × (s : Parser) × (replay p cs ≡ some (calls, q))
      × (feed (some p) (some (joined cs)) ≡ some (length calls, calls, some s))
      × (contents q ≡ contents s)
replay_lem p cs v bytes =
    let (fs, q, e, t) = replay-Scans p cs v bytes in
    let (gs, s, d, u, w, lt) = feed_lem p (joined cs) v (joined-IsBytes cs bytes) in
    let same = Scans-functional u t in
    (
      delivered fs,
      q,
      s,
      e,
      d ∙ ap (λ l. some (length l, l, some s)) (ap delivered same.0),
      sym same.1,
    )
