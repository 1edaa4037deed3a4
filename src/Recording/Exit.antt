-- ===== src/Recording/Exit.antt =====
-- How test/verify_recording.c ends, and what it has printed by then.
use Prim.Native.String.{String}
use rc_monitor.Base.{
  ℕ, zero, suc, ◌+◌, ◌<◌, ◌≡◌, ◌≢◌, refl, sym, ap, ◌∙◌, subst, arith, List, [], ◌∷◌, ◌++◌, length,
  append_assoc, append-nil, All, IsBytes, Option, none, some, Bool, true, false,
}
use rc_monitor.State.{RcState}
use rc_monitor.Parser.{Parser, create, fresh, feed}
use rc_monitor.Parser.Chunks.{replay, joined, replay_lem}
use rc_monitor.Parser.Feed.{fresh-IsIdle, feed_lem}
use rc_monitor.Parser.Decode.{IsIdle, delivered}
use rc_monitor.Recording.{
  Stdio, Action, usage, fopen_failed, create_failed, frame_line, total_line, destroyed, closed,
  Globals, initial, line_of, cb, cb_all, feed_chunk, read_loop, with_created, with_file,
  verify_recording,
}

-- The lines for the states, numbered from behind `n`.
unfoldable pub lines : ℕ → List RcState → List Action
lines n [] = []
lines n (s ∷ ss) = frame_line (line_of (n + 1) s) ∷ lines (n + 1) ss

cb_all_lem :
    (g : Globals) (ss : List RcState)
    → ((cb_all g ss).count ≡ g.count + length ss)
      × ((cb_all g ss).printed ≡ g.printed ++ lines g.count ss)
unfolding cb_all cb lines
cb_all_lem g [] = (omega arith, sym (append-nil g.printed))
cb_all_lem g (s ∷ ss) =
    let (n, out) = cb_all_lem (cb g s) ss in
    (
      omega (arith, n),
      out
          ∙ append_assoc g.printed (frame_line (line_of (g.count + 1) s) ∷ [])
              (lines (g.count + 1) ss),
    )

cb_all-append : (g : Globals) (ss ts : List RcState) → cb_all g (ss ++ ts) ≡ cb_all (cb_all g ss) ts
unfolding cb_all
cb_all-append g [] ts = refl
cb_all-append g (s ∷ ss) ts = cb_all-append (cb g s) ss ts

module _ {F : Type 0} (stdio : Stdio F) where
  -- The pieces that a stream yields, none of them empty, before a read that gives no byte: at the end
  -- of the file, or at an error.
  pub data Yields : F → List (List ℕ) → Type 0 where
    ended : {f : F} → (stdio.fread f 4096).0 ≡ [] → Yields f []
    more :
        {f g : F} {cs : List (List ℕ)} (b : ℕ) (bs : List ℕ)
        → stdio.fread f 4096 ≡ (b ∷ bs, g)
        → Yields g cs
        → Yields f ((b ∷ bs) ∷ cs)

  -- The loop feeds the pieces one by one.
  read_loop_lem :
      (fuel : ℕ) (p : Parser) (g : Globals) {f : F} {cs : List (List ℕ)}
      → Yields f cs
      → length cs < fuel
      → All IsBytes cs
      → IsIdle p
      → (calls : List RcState) × (q : Parser) × (replay p cs ≡ some (calls, q))
        × (read_loop stdio fuel f p g ≡ some (cb_all g calls, q))
  unfolding read_loop replay feed_chunk cb_all
  read_loop_lem zero p g y enough bytes idle = absurd (omega arith)
  read_loop_lem (suc fuel) p g {f} (ended e) enough bytes idle = (
    [],
    p,
    refl,
    ap (λ c. feed_chunk (read_loop stdio fuel (stdio.fread f 4096).1) c p g) e ∙ refl,
  )
  read_loop_lem (suc fuel) p g (more b bs e y) enough bytes idle =
      let (fs, q, fed, t, w, lt) = feed_lem p (b ∷ bs) idle bytes.0 in
      let (calls, r, a, l) =
        read_loop_lem fuel q (cb_all g (delivered fs)) y (omega (arith, enough)) bytes.1 w in
      (
        delivered fs ++ calls,
        r,
        rw (fed, a, replay) refl,
        ap (λ x. feed_chunk (read_loop stdio fuel x.1) x.0 p g) e
            ∙ rw (fed, feed_chunk)
                (l ∙ ap (λ x. some (x, r)) (sym (cb_all-append g (delivered fs) calls))),
      )

  -- With a parser, what is printed for the pieces, and that they may be fed at once.
  pub printed_lem :
      (fuel : ℕ) (path : String) {f : F} {cs : List (List ℕ)}
      → Yields f cs
      → length cs < fuel
      → All IsBytes cs
      → (calls : List RcState) × (q : Parser) × (feed (some fresh) (some (joined cs))
          ≡ some (length calls, calls, some q))
        × (with_created stdio fuel path f (create true true)
            ≡ some (0, lines 0 calls ++ (total_line (length calls) path ∷ destroyed ∷ closed ∷ [])))
  unfolding with_created create
  printed_lem fuel path {cs = cs} y enough bytes =
      let (calls, q, r, l) = read_loop_lem fuel fresh initial y enough bytes fresh-IsIdle in
      let (calls2, q2, s, r2, fed, same) = replay_lem fresh cs fresh-IsIdle bytes in
      let (n, out) = cb_all_lem initial calls in
      let counted : (cb_all initial calls).count ≡ length calls = omega (arith, n) in
      let agree : calls2 ≡ calls = cc in
      (
        calls,
        s,
        subst (λ l. feed (some fresh) (some (joined cs)) ≡ some (length l, l, some s)) agree fed,
        rw (l, with_created) (rw (counted, out) refl),
      )

  -- What can come of the program with these arguments. No two of these can hold for the same ones.
  pub data Outcome (argv : List String) (allocated : Bool) : ℕ → List Action → Type 0 where
    misused :
        (name : Option String)
        → ((a b : String) → argv ≢ a ∷ b ∷ [])
        → Outcome argv allocated 1 (usage name ∷ [])
    no_file :
        (a path : String)
        → argv ≡ a ∷ path ∷ []
        → stdio.fopen path ≡ none
        → Outcome argv allocated 1 (fopen_failed ∷ [])
    no_memory :
        (a path : String) (f : F)
        → argv ≡ a ∷ path ∷ []
        → stdio.fopen path ≡ some f
        → allocated ≡ false
        → Outcome argv allocated 1 (create_failed ∷ closed ∷ [])
    verified :
        (a path : String) (f : F) (cs : List (List ℕ)) (calls : List RcState) (q : Parser)
        → argv ≡ a ∷ path ∷ []
        → stdio.fopen path ≡ some f
        → allocated ≡ true
        → Yields f cs
        → feed (some fresh) (some (joined cs)) ≡ some (length calls, calls, some q)
        → Outcome argv allocated 0
            (lines 0 calls ++ (total_line (length calls) path ∷ destroyed ∷ closed ∷ []))

  -- Every file that can be opened ends, after fewer pieces than there is fuel.
  abbrev pub Ends : ℕ → Type 0
  Ends fuel =
      (path : String) (f : F)
      → stdio.fopen path ≡ some f
      → (cs : List (List ℕ)) × Yields f cs × All IsBytes cs × (length cs < fuel)

  -- From `rcm_create` on.
  created_lem :
      (fuel : ℕ) (allocated : Bool) (a path : String) (f : F)
      → stdio.fopen path ≡ some f
      → Ends fuel
      → (code : ℕ) × (actions : List Action) × (with_created stdio fuel path f
            (create true allocated)
          ≡ some (code, actions))
        × Outcome (a ∷ path ∷ []) allocated code actions
  unfolding with_created create
  created_lem fuel false a path f h ends =
      (1, create_failed ∷ closed ∷ [], refl, no_memory a path f refl h refl)
  created_lem fuel true a path f h ends =
      let (cs, y, bytes, enough) = ends path f h in
      let (calls, s, fed, e) = printed_lem fuel path y enough bytes in
      (
        0,
        lines 0 calls ++ (total_line (length calls) path ∷ destroyed ∷ closed ∷ []),
        e,
        verified a path f cs calls s refl h refl y fed,
      )

  file_lem :
      (fuel : ℕ) (allocated : Bool) (a path : String) (opened : Option F)
      → stdio.fopen path ≡ opened
      → Ends fuel
      → (code : ℕ) × (actions : List Action) × (with_file stdio fuel allocated path opened
          ≡ some (code, actions))
        × Outcome (a ∷ path ∷ []) allocated code actions
  unfolding with_file
  file_lem fuel allocated a path none h ends = (1, fopen_failed ∷ [], refl, no_file a path refl h)
  file_lem fuel allocated a path (some f) h ends = created_lem fuel allocated a path f h ends

  -- Whatever its arguments, where each file that can be opened ends after fewer pieces than there is
  -- fuel, verify_recording returns. It returns 1 with a message if it is not given exactly one path,
  -- if the file cannot be opened, or, with the file closed, without memory for the parser. Only
  -- where none of these holds does it return 0; it has then printed a line for each state that
  -- feeding the whole file at once to a new parser leads to, in order and numbered from 1, and then
  -- their number, and has destroyed the parser and closed the file.
  pub verify_recording_lem :
      (fuel : ℕ) (allocated : Bool) (argv : List String)
      → Ends fuel
      → (code : ℕ) × (actions : List Action) × (verify_recording stdio fuel allocated argv
          ≡ some (code, actions))
        × Outcome argv allocated code actions
  unfolding verify_recording
  verify_recording_lem fuel allocated [] ends =
      (1, usage none ∷ [], refl, misused none (λ a b e. cc))
  verify_recording_lem fuel allocated (a ∷ []) ends =
      (1, usage (some a) ∷ [], refl, misused (some a) (λ x y e. cc))
  verify_recording_lem fuel allocated (a ∷ path ∷ []) ends =
      file_lem fuel allocated a path (stdio.fopen path) refl ends
  verify_recording_lem fuel allocated (a ∷ b ∷ c ∷ more_args) ends =
      (1, usage (some a) ∷ [], refl, misused (some a) (λ x y e. cc))
