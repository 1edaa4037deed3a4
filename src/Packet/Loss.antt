-- ===== src/Packet/Loss.antt =====
-- What a damaged packet costs the stream: itself.
use rc_monitor.Base.{
  ℕ, ◌+◌, ◌<◌, ◌≤◌, ◌≡◌, ◌≢◌, sym, ap, ◌∙◌, subst, arith, List, [], ◌∷◌, ◌++◌, length, drop-append,
  length-append, some, IsBytes, All-append,
}
use rc_monitor.State.{RcState}
use rc_monitor.Scan.{Scans, pass, front, skip}
use rc_monitor.Scan.Laws.{Scans-functional}
use rc_monitor.Parser.{Parser, feed}
use rc_monitor.Parser.Ring.{contents}
use rc_monitor.Parser.Decode.{IsIdle, delivered}
use rc_monitor.Parser.Feed.{feed_lem}
use rc_monitor.Packet.Layout.{packet, length-packet}
use rc_monitor.Packet.RoundTrip.{Message}
use rc_monitor.Packet.Delivery.{IsPush, packet-IsBytes}
use rc_monitor.Packet.Corrupt.{front-changed_packet, IsBytes-before, IsBytes-after}

-- A push packet of the builder, of a payload of 17 to 1010 bytes, in which one byte behind the fourth
-- is changed, makes no difference to a parser that holds no byte: those that follow it lead to the
-- calls and the number returned, and leave the queue, that they would without it.
pub feed-changed_packet :
    (p : Parser) (m : Message) (xs : List ℕ) (b e : ℕ) (ys zs : List ℕ)
    → IsIdle p
    → contents p ≡ []
    → packet m.header m.payload ≡ xs ++ (b ∷ ys)
    → IsPush m
    → 4 ≤ length xs
    → e < 256
    → b ≢ e
    → IsBytes zs
    → (n : ℕ) × (cs : List RcState) × (q : Parser) × (r : Parser) × (feed
          (some p)
          (some ((xs ++ (e ∷ ys)) ++ zs))
        ≡ some (n, cs, some q))
      × (feed (some p) (some zs) ≡ some (n, cs, some r))
      × (contents q ≡ contents r)
feed-changed_packet p m xs b e ys zs idle empty cut v late he ne bytes =
    let (fs, r, er, t, w, lt) = feed_lem p zs idle bytes in
    let (gs, q, eq, u, x, lu) =
      feed_lem p (changed ++ zs) idle
        (All-append (λ k. k < 256) changed zs changed-IsBytes bytes) in
    let same =
      Scans-functional (subst (λ l. Scans (l ++ (changed ++ zs)) gs (contents q)) empty u) (
        pass (length changed) passed (
          subst (λ l. Scans l fs (contents r)) (sym (drop-append changed zs))
            (subst (λ l. Scans (l ++ zs) fs (contents r)) empty t))) in
    (
      length (delivered fs),
      delivered fs,
      q,
      r,
      eq ∙ ap (λ l. some (length l, l, some q)) (ap delivered same.0),
      er,
      same.1,
    )
  where
    changed : List ℕ
    changed = xs ++ (e ∷ ys)

    changed-IsBytes : IsBytes changed
    changed-IsBytes =
        let old = subst IsBytes cut (packet-IsBytes m v) in
        All-append (λ k. k < 256) xs (e ∷ ys) (IsBytes-before xs (b ∷ ys) old)
          (he, (IsBytes-after xs (b ∷ ys) old).1)

    size : length changed ≡ 13 + length m.payload
    size = omega (
      arith,
      length-append xs (e ∷ ys),
      length-append xs (b ∷ ys),
      ap length cut,
      length-packet m.header m.payload,
    )

    passed : front (changed ++ zs) ≡ skip (length changed)
    passed = front-changed_packet m xs b e ys zs cut v he ne ∙ ap skip (ground (arith, size))
