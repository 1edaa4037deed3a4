-- ===== src/Readers/Usb/Silence.antt =====
-- When the read loop of UsbRcReader asks for the channels: `Polls` says it by the times of the last data
-- and of the last request, without the loop's `pushMode`.
use rc_monitor.Base.{
  ℕ, ◌+◌, ◌%◌, ◌^◌, ◌<◌, ◌≤◌, ◌≡◌, refl, sym, ap, ◌∙◌, subst, arith, inl, inr, ◌⊎◌, List, [], ◌∷◌,
  ◌++◌, Bool, true, false, not, ◌&&◌, Bool-cases, ltb, ltb→lt, ltb→ge, if◌then◌else◌,
}
use rc_monitor.Readers.Usb.Poll.{
  Polling, Reading, received, silent, Act, send_enable, hand_over, send_poll, poll_if, poll_at,
  after_timeout, poll_round, poll_rounds, usb_loop, carried, counted_on,
}

-- The clock does not run backwards: no time is before `t` or before the one ahead of it.
abbrev pub Forward : ℕ → List Reading → Type 0
Forward t [] = Unit
Forward t (received bytes now ∷ rs) = (t ≤ now) × Forward now rs
Forward t (silent now ∷ rs) = (t ≤ now) × Forward now rs

-- `Polls data_time poll_time n rs acts`: with the last data at `data_time`, the last request at
-- `poll_time`, and n as the next number, the reads `rs` lead to `acts`. No two cases hold for one read.
pub data Polls : ℕ → ℕ → ℕ → List Reading → List Act → Type 0 where
  all_read : {data_time poll_time n : ℕ} → Polls data_time poll_time n [] []
  data_read :
      {data_time poll_time n now : ℕ} {rs : List Reading} {acts : List Act} (bytes : List ℕ)
      → Polls now poll_time n rs acts
      → Polls data_time poll_time n (received bytes now ∷ rs) (hand_over bytes ∷ acts)
  in_time :
      {data_time poll_time n now : ℕ} {rs : List Reading} {acts : List Act}
      → now ≤ data_time + 2000
      → Polls data_time poll_time n rs acts
      → Polls data_time poll_time n (silent now ∷ rs) acts
  asked_already :
      {data_time poll_time n now : ℕ} {rs : List Reading} {acts : List Act}
      → data_time + 2000 < now
      → now ≤ poll_time + 50
      → Polls data_time poll_time n rs acts
      → Polls data_time poll_time n (silent now ∷ rs) acts
  asks :
      {data_time poll_time n m now : ℕ} {rs : List Reading} {acts : List Act}
      → data_time + 2000 < now
      → poll_time + 50 < now
      → m ≡ n % 2 ^ 16
      → Polls data_time now (n + 1) rs acts
      → Polls data_time poll_time n (silent now ∷ rs) (send_poll m now ∷ acts)

-- An empty read in time changes nothing.
quiet_round :
    (p : Polling) (now : ℕ)
    → p.push_mode ≡ true
    → ltb (p.last_data_time + 2000) now ≡ false
    → poll_round p (silent now) ≡ (p, [])
unfolding poll_round poll_at poll_if after_timeout
quiet_round p now push e =
    ap (λ b. poll_at now (record p { push_mode = if b then false else p.push_mode })) e
    ∙ ap (λ b. poll_if (not b && ltb (p.last_poll_time + 50) now) now p) push

-- After a longer silence the time of the last request decides.
overdue_round :
    (p : Polling) (now : ℕ)
    → ltb (p.last_data_time + 2000) now ≡ true
    → poll_round p (silent now)
      ≡ poll_if (ltb (p.last_poll_time + 50) now) now (record p { push_mode = false })
unfolding poll_round poll_at after_timeout
overdue_round p now e =
    ap (λ b. poll_at now (record p { push_mode = if b then false else p.push_mode })) e

-- Behind data too long ago, with what follows for any further request.
poll_if-Polls :
    (b : Bool) (now n : ℕ) (p : Polling) (rs : List Reading)
    → p.seq ≡ n % 2 ^ 32
    → p.last_data_time + 2000 < now
    → ltb (p.last_poll_time + 50) now ≡ b
    → ((l k m : ℕ)
        → k ≡ m % 2 ^ 32
        → Polls p.last_data_time l m rs
            (poll_rounds (record p { push_mode = false; last_poll_time = l; seq = k }) rs))
    → let x = poll_if b now (record p { push_mode = false }) in
      Polls p.last_data_time p.last_poll_time n (silent now ∷ rs) (x.1 ++ poll_rounds x.0 rs)
unfolding poll_if
poll_if-Polls true now n p rs e late due then_on =
    asks late (ltb→lt (p.last_poll_time + 50) now due) (carried p.seq n e)
      (then_on now _ (n + 1) (counted_on p.seq n e))
poll_if-Polls false now n p rs e late soon then_on =
    asked_already late (ltb→ge (p.last_poll_time + 50) now soon)
      (then_on p.last_poll_time p.seq n e)

-- `push_mode` is true, or the last data was too long ago already at `t`.
abbrev Pushing : Polling → ℕ → Type 0
Pushing p t = (p.push_mode ≡ true) ⊎ (p.last_data_time + 2000 < t)

poll_rounds-Polls :
    (rs : List Reading) (p : Polling) (t n : ℕ)
    → p.seq ≡ n % 2 ^ 32
    → Pushing p t
    → Forward t rs
    → Polls p.last_data_time p.last_poll_time n rs (poll_rounds p rs)
unfolding poll_rounds poll_round
poll_rounds-Polls [] p t n e mode v = all_read
poll_rounds-Polls (received bytes now ∷ rs) p t n e mode v =
    data_read bytes (poll_rounds-Polls rs _ now n e (inl refl) v.1)
poll_rounds-Polls (silent now ∷ rs) p t n e mode v =
    elim (Bool-cases (ltb (p.last_data_time + 2000) now)) [
      | inl over ↦
          let late = ltb→lt (p.last_data_time + 2000) now over in
          subst Next (sym (overdue_round p now over)) (
            poll_if-Polls (ltb (p.last_poll_time + 50) now) now n p rs e late refl
              (λ l k m c. poll_rounds-Polls rs _ now m c (inr late) v.1))
      | inr early ↦
          let le = ltb→ge (p.last_data_time + 2000) now early in
          let push = pushing le mode in
          subst Next (sym (quiet_round p now push early))
            (in_time le (poll_rounds-Polls rs p now n e (inl push) v.1))
    ]
  where
    Next : Polling × List Act → Type 0
    Next x = Polls p.last_data_time p.last_poll_time n (silent now ∷ rs) (x.1 ++ poll_rounds x.0 rs)

    pushing : now ≤ p.last_data_time + 2000 → Pushing p t → p.push_mode ≡ true
    pushing le (inl push) = push
    pushing le (inr late) = absurd (omega (arith, le, late, v.0))

-- Where the clock does not run backwards, the thread of UsbRcReader sends the enable command with
-- the number 1, and then feeds each piece that it receives and sends a channel request at exactly
-- those empty reads that come more than 2000 ms after the last data, or the start before any, and
-- more than 50 ms after the last request; the requests are numbered from 2 on, modulo 65536.
pub usb_loop-Polls :
    (start : ℕ) (rs : List Reading)
    → Forward start rs
    → (acts : List Act) × (usb_loop start rs ≡ send_enable 1 ∷ acts) × Polls start 0 2 rs acts
unfolding usb_loop
usb_loop-Polls start rs v =
    let p : Polling = record {
      push_mode = true;
      last_data_time = start;
      last_poll_time = 0;
      seq = 2;
    } in
    (poll_rounds p rs, refl, poll_rounds-Polls rs p start 2 refl (inl refl) v)
