-- ===== src/Readers/Usb/Poll.antt =====
-- The read loop of UsbRcReader: it feeds what arrives, and asks for the channels when nothing does.
use rc_monitor.Base.{
  ℕ, ◌+◌, ◌%◌, ◌^◌, arith, ◌<◌, ◌≡◌, refl, ap, ◌∙◌, List, [], ◌∷◌, ◌++◌, Bool, true, false, not,
  ◌&&◌, ltb, ltb→lt, if◌then◌else◌,
}
use rc_monitor.Base.{All, IsBytes, length, some}
use rc_monitor.State.{RcState}
use rc_monitor.Parser.{Parser, fresh, feed}
use rc_monitor.Parser.Chunks.{replay, joined, replay_lem}
use rc_monitor.Parser.Feed.{fresh-IsIdle}

-- `PUSH_TIMEOUT_MS` and `POLL_INTERVAL_MS`
abbrev pub push_timeout_ms : ℕ
push_timeout_ms = 2000

abbrev pub poll_interval_ms : ℕ
poll_interval_ms = 50

-- The local variables of the loop, of `seq` the 32 bits of the `int`.
pub record Polling : Type 0 where
  pub push_mode : Bool
  pub last_data_time : ℕ
  pub last_poll_time : ℕ
  pub seq : ℕ

-- What `bulkTransfer` and the clock yield in a round: bytes, and the time after they were fed; or none,
-- and the time.
pub data Reading : Type 0 where
  received : List ℕ → ℕ → Reading
  silent : ℕ → Reading

-- What the loop does: it sends the enable command, feeds bytes, or sends a channel request, with the
-- number that the packet carries, to which nativeBuildChannelRequest cuts `seq`, and the time. A
-- packet for which Java has no memory is left out, but all else is done as if it were sent.
pub data Act : Type 0 where
  send_enable : ℕ → Act
  hand_over : List ℕ → Act
  send_poll : ℕ → ℕ → Act

-- A channel request, if it is time for one.
unfoldable pub poll_if : Bool → ℕ → Polling → Polling × List Act
poll_if true now p = (
  record p { seq = (p.seq + 1) % 2 ^ 32; last_poll_time = now },
  send_poll (p.seq % 2 ^ 16) now ∷ [],
)
poll_if false now p = (p, [])

-- Where nothing was received at the time `now`, behind the test of `PUSH_TIMEOUT_MS`.
unfoldable pub poll_at : ℕ → Polling → Polling × List Act
poll_at now p = poll_if (not p.push_mode && ltb (p.last_poll_time + poll_interval_ms) now) now p

-- `if (now - lastDataTime > PUSH_TIMEOUT_MS) pushMode = false;`
unfoldable pub after_timeout : ℕ → Polling → Polling
after_timeout now p = record p {
  push_mode = if ltb (p.last_data_time + push_timeout_ms) now then false else p.push_mode;
}

-- One round.
unfoldable pub poll_round : Polling → Reading → Polling × List Act
poll_round p (received bytes now) =
    (record p { last_data_time = now; push_mode = true }, hand_over bytes ∷ [])
poll_round p (silent now) = poll_at now (after_timeout now p)

unfoldable pub poll_rounds : Polling → List Reading → List Act
poll_rounds p [] = []
poll_rounds p (r ∷ rs) = let (q, acts) = poll_round p r in acts ++ poll_rounds q rs

-- The thread up to the end of its loop, begun at a time.
unfoldable pub usb_loop : ℕ → List Reading → List Act
usb_loop start rs =
    send_enable 1
    ∷ poll_rounds (record { push_mode = true; last_data_time = start; last_poll_time = 0; seq = 2 })
        rs

-- The bytes that were received, and those that were fed.
unfoldable pub arrived : List Reading → List (List ℕ)
arrived [] = []
arrived (received bytes now ∷ rs) = bytes ∷ arrived rs
arrived (silent now ∷ rs) = arrived rs

unfoldable pub fed_by : List Act → List (List ℕ)
fed_by [] = []
fed_by (hand_over bytes ∷ as_done) = bytes ∷ fed_by as_done
fed_by (send_enable n ∷ as_done) = fed_by as_done
fed_by (send_poll n now ∷ as_done) = fed_by as_done

-- `Numbered n last acts`: the requests carry consecutive numbers from `n` on, modulo 65536, and each is
-- sent more than 50 ms after the one before it, of which `last` is the time.
pub data Numbered : ℕ → ℕ → List Act → Type 0 where
  no_act : {n last : ℕ} → Numbered n last []
  data_fed :
      {n last : ℕ} {acts : List Act} (bytes : List ℕ)
      → Numbered n last acts
      → Numbered n last (hand_over bytes ∷ acts)
  polled :
      {n last m now : ℕ} {acts : List Act}
      → m ≡ n % 2 ^ 16
      → last + 50 < now
      → Numbered (n + 1) now acts
      → Numbered n last (send_poll m now ∷ acts)

-- `seq` counts modulo 2 ^ 32, and the packet carries its 16 low bits.
pub carried : (seq n : ℕ) → seq ≡ n % 2 ^ 32 → seq % 2 ^ 16 ≡ n % 2 ^ 16
carried seq n e = omega (arith, e)

pub counted_on : (seq n : ℕ) → seq ≡ n % 2 ^ 32 → (seq + 1) % 2 ^ 32 ≡ (n + 1) % 2 ^ 32
counted_on seq n e = omega (arith, e)

poll_if-Numbered :
    (b : Bool) (now n : ℕ) (p : Polling) (rest : Polling → List Act)
    → p.seq ≡ n % 2 ^ 32
    → (b ≡ true → p.last_poll_time + 50 < now)
    → ((q : Polling) (m : ℕ) → q.seq ≡ m % 2 ^ 32 → Numbered m q.last_poll_time (rest q))
    → let x = poll_if b now p in Numbered n p.last_poll_time (x.1 ++ rest x.0)
unfolding poll_if
poll_if-Numbered true now n p rest e due then_on =
    polled (carried p.seq n e) (due refl) (then_on _ (n + 1) (counted_on p.seq n e))
poll_if-Numbered false now n p rest e due then_on = then_on p n e

poll_rounds-Numbered :
    (rs : List Reading) (p : Polling) (n : ℕ)
    → p.seq ≡ n % 2 ^ 32
    → Numbered n p.last_poll_time (poll_rounds p rs)
unfolding poll_rounds poll_round poll_at after_timeout
poll_rounds-Numbered [] p n e = no_act
poll_rounds-Numbered (received bytes now ∷ rs) p n e =
    data_fed bytes (poll_rounds-Numbered rs _ n e)
poll_rounds-Numbered (silent now ∷ rs) p n e =
    let q = after_timeout now p in
    poll_if-Numbered (not q.push_mode && ltb (q.last_poll_time + 50) now) now n q
      (λ x. poll_rounds x rs) e
      (λ h.
        ltb→lt (q.last_poll_time + 50) now
          (second (not q.push_mode) (ltb (q.last_poll_time + 50) now) h))
      (λ x m. poll_rounds-Numbered rs x m)
  where
    second : (a b : Bool) → (a && b) ≡ true → b ≡ true
    second true b h = h
    second false b h = cc

fed_by-poll_if :
    (b : Bool) (now : ℕ) (p : Polling) (acts : List Act)
    → fed_by ((poll_if b now p).1 ++ acts) ≡ fed_by acts
unfolding poll_if fed_by
fed_by-poll_if true now p acts = refl
fed_by-poll_if false now p acts = refl

fed_by-poll_rounds : (rs : List Reading) (p : Polling) → fed_by (poll_rounds p rs) ≡ arrived rs
unfolding poll_rounds poll_round poll_at fed_by arrived
fed_by-poll_rounds [] p = refl
fed_by-poll_rounds (received bytes now ∷ rs) p =
    ap (λ l. bytes ∷ l) (fed_by-poll_rounds rs (poll_round p (received bytes now)).0)
fed_by-poll_rounds (silent now ∷ rs) p =
    fed_by-poll_if _ now (after_timeout now p) (poll_rounds (poll_round p (silent now)).0 rs)
    ∙ fed_by-poll_rounds rs (poll_round p (silent now)).0

-- Whatever bytes arrive and whenever, the thread of UsbRcReader sends the enable command with the
-- number 1 first; then it feeds every piece that it receives, in order and once; its channel
-- requests carry consecutive numbers from 2 on, modulo 65536, each sent more than 50 ms after the
-- one before it; and the pieces, fed one by one to a new parser, lead to the calls that all the
-- bytes received lead to, fed at once.
pub usb_loop_lem :
    (start : ℕ) (rs : List Reading)
    → All IsBytes (arrived rs)
    → (acts : List Act) × (calls : List RcState) × (p : Parser) × (q : Parser) × (usb_loop start rs
        ≡ send_enable 1 ∷ acts)
      × (fed_by acts ≡ arrived rs)
      × Numbered 2 0 acts
      × (replay fresh (fed_by acts) ≡ some (calls, p))
      × (feed (some fresh) (some (joined (arrived rs))) ≡ some (length calls, calls, some q))
unfolding usb_loop
usb_loop_lem start rs bytes =
    let p : Polling = record {
      push_mode = true;
      last_data_time = start;
      last_poll_time = 0;
      seq = 2;
    } in
    let all_fed = fed_by-poll_rounds rs p in
    let (calls, u, v, one_by_one, at_once, same) =
      replay_lem fresh (arrived rs) fresh-IsIdle bytes in
    (
      poll_rounds p rs,
      calls,
      u,
      v,
      refl,
      all_fed,
      poll_rounds-Numbered rs p 2 refl,
      ap (replay fresh) all_fed ∙ one_by_one,
      at_once,
    )
