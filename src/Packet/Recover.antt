-- ===== src/Packet/Recover.antt =====
-- How the parser comes back to the stream after anything that it was fed: a silence of 1023 bytes.
use rc_monitor.Base.{
  ℕ, ◌+◌, ◌<◌, ◌≤◌, ◌≡◌, refl, sym, ◌∙◌, subst, arith, List, [], ◌∷◌, ◌++◌, length, drop, drop-drop,
  ◌==◌, false, some, IsBytes, All, All-drop_append,
}
use rc_monitor.State.{RcState, duml_sof}
use rc_monitor.Scan.{Scans, stop, pass, found, front, incomplete}
use rc_monitor.Scan.Laws.{Scans-rest, front-incomplete}
use rc_monitor.Parser.{Parser, feed}
use rc_monitor.Parser.Ring.{contents}
use rc_monitor.Parser.Decode.{IsIdle, delivered}
use rc_monitor.Parser.Feed.{feed_lem}
use rc_monitor.Packet.RoundTrip.{Message, stream}
use rc_monitor.Packet.Delivery.{IsPush, states, feed-stream}

-- A byte that does not begin a frame.
abbrev pub NotSof : ℕ → Type 0
NotSof b = (b == duml_sof) ≡ false

-- What a division leaves over stands at the end.
Scans-drop :
    {xs : List ℕ} {fs : List (List ℕ)} {r : List ℕ} → Scans xs fs r → (n : ℕ) × (r ≡ drop n xs)
Scans-drop (stop p) = (0, refl)
Scans-drop {xs} (pass n p t) = let (m, e) = Scans-drop t in (n + m, e ∙ drop-drop n m xs)
Scans-drop {xs} (found n p t) = let (m, e) = Scans-drop t in (n + m, e ∙ drop-drop n m xs)

silent-front : (xs : List ℕ) → All NotSof xs → front xs ≡ incomplete → xs ≡ []
unfolding front
silent-front [] h e = refl
silent-front (x ∷ xs) h e = absurd (ground (arith, h.0))

-- Whatever a parser holds between calls, after 1023 or more bytes of which none is 0x55 it holds no
-- byte, and the packets of push messages that follow lead to a call for each message, in order.
pub feed-silence :
    (p : Parser) (ys : List ℕ) (ms : List Message)
    → IsIdle p
    → IsBytes ys
    → All NotSof ys
    → 1023 ≤ length ys
    → All IsPush ms
    → (n : ℕ) × (cs : List RcState) × (q : Parser) × (r : Parser) × (feed (some p) (some ys)
        ≡ some (n, cs, some q))
      × (contents q ≡ [])
      × (feed (some q) (some (stream ms)) ≡ some (length (states ms), states ms, some r))
feed-silence p ys ms idle bytes silent long push =
    let (fs, q, e, t, idle2, lt) = feed_lem p ys idle bytes in
    let (n, at) = Scans-drop t in
    let short : length (drop n (contents p ++ ys)) < 1024 =
      subst (λ l. length l < 1024) at (front-incomplete (contents q) (Scans-rest t)) in
    let quiet : All NotSof (contents q) =
      subst (All NotSof) (sym at) (All-drop_append NotSof n (contents p) ys (omega arith) silent) in
    let empty = silent-front (contents q) quiet (Scans-rest t) in
    let (r, f, x, y) = feed-stream q ms idle2 empty push in
    (length (delivered fs), delivered fs, q, r, e, empty, f)
