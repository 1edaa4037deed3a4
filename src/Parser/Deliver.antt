-- ===== src/Parser/Deliver.antt =====
-- The part of `try_decode_frame` behind a good checksum: which frames lead to a call of the callback.
use rc_monitor.Base.{
  ℕ, zero, suc, ◌+◌, ◌-◌, ◌≤◌, ◌≡◌, refl, ap, arith, ◌⊎◌, inl, inr, Bool, true, false, ◌&&◌,
  Bool-cases, List, drop, Option, some, none, leb, leb→le, if◌then◌else◌,
}
use rc_monitor.State.{RcState, duml_cmd_set_rc, duml_cmd_rc_push, rc_push_payload_len}
use rc_monitor.Payload.{byte_at, decode_payload, parse_payload}
use rc_monitor.Payload.Ranges.{parse_payload_ok}
use rc_monitor.Parser.{
  Ret, other_frame, push_frame, parsed, blank, is_rc_push, standard_payload, payload_at,
  search_payload, deliver,
}

-- A frame of `n` bytes with the RC push command at `off`, and 17 bytes between it and the checksum.
pub record Carries (frame : List ℕ) (n off : ℕ) : Type 0 where
  pub from_8 : 8 ≤ off
  pub to_12 : off ≤ 12
  pub set : byte_at frame off ≡ duml_cmd_set_rc
  pub id : byte_at frame (off + 1) ≡ duml_cmd_rc_push
  pub room : off + 2 + rc_push_payload_len + 2 ≤ n

is_rc_push_lem :
    (frame : List ℕ) (off : ℕ)
    → is_rc_push frame off ≡ true
    → (byte_at frame off ≡ duml_cmd_set_rc) × (byte_at frame (off + 1) ≡ duml_cmd_rc_push)
unfolding is_rc_push
is_rc_push_lem frame off h = ground arith

both : (a b : Bool) → a && b ≡ true → (a ≡ true) × (b ≡ true)
both true true h = (refl, refl)
both true false h = cc
both false b h = cc

parsed_ok :
    (p : List ℕ) (n : ℕ)
    → 17 ≤ n
    → parsed (parse_payload (some p) n (some blank)) ≡ some (decode_payload p)
unfolding parsed
parsed_ok p n h = ap parsed (parse_payload_ok p n blank h)

-- What a test of one offset yields.
abbrev Found : List ℕ → ℕ → ℕ → Option RcState → Type 0
Found frame n off r =
    (r ≡ none) ⊎ (Carries frame n off × (r ≡ some (decode_payload (drop (off + 2) frame))))

standard_payload_lem : (frame : List ℕ) (n : ℕ) → Found frame n 9 (standard_payload frame n)
unfolding standard_payload
standard_payload_lem frame n = elim (Bool-cases (leb 13 n && is_rc_push frame 9)) [
  | inl rc ↦ elim (Bool-cases (leb 17 (n - 13))) [
    | inl long ↦
        let pair = is_rc_push_lem frame 9 (both (leb 13 n) (is_rc_push frame 9) rc).1 in
        inr (
          record {
            from_8 = omega arith;
            to_12 = omega arith;
            set = pair.0;
            id = pair.1;
            room = omega (arith, leb→le 17 (n - 13) long);
          },
          rw (rc, long) (parsed_ok (drop 11 frame) (n - 13) (leb→le 17 (n - 13) long)),
        )
    | inr short ↦ inl (rw (rc, short) refl)
  ]
  | inr other ↦ inl (rw other refl)
]

payload_at_lem :
    (frame : List ℕ) (n off : ℕ)
    → 8 ≤ off
    → off ≤ 12
    → off + 2 + 17 ≤ n - 2
    → Found frame n off (payload_at frame n off)
unfolding payload_at
payload_at_lem frame n off lo hi room = elim (Bool-cases (is_rc_push frame off)) [
  | inl rc ↦ elim (Bool-cases (leb 17 (n - 2 - (off + 2)) && leb (n - 2 - (off + 2)) 21)) [
    | inl fits ↦
        let pair = is_rc_push_lem frame off rc in
        let long =
          leb→le 17 (n - 2 - (off + 2))
            (both (leb 17 (n - 2 - (off + 2))) (leb (n - 2 - (off + 2)) 21) fits).0 in
        inr (
          record { from_8 = lo; to_12 = hi; set = pair.0; id = pair.1; room = omega (arith, long) },
          rw (rc, fits) (parsed_ok (drop (off + 2) frame) (n - 2 - (off + 2)) long),
        )
    | inr other ↦ inl (rw (rc, other) refl)
  ]
  | inr other ↦ inl (rw other refl)
]

-- What a frame of `n` bytes leads to: nothing, or the state behind one of the offsets.
abbrev pub Leads : List ℕ → ℕ → Ret → Type 0
Leads frame n r =
    (r ≡ other_frame)
    ⊎ ((off : ℕ) × Carries frame n off × (r ≡ push_frame (decode_payload (drop (off + 2) frame))))

-- One round of the loop over the offsets, given the others.
first-Found :
    (frame : List ℕ) (n off : ℕ) (r : Option RcState) (rest : Ret)
    → Found frame n off r
    → Leads frame n rest
    → Leads frame n (elim r [ some s ↦ push_frame s | none ↦ rest ])
first-Found frame n off (some s) rest (inl e) k = cc
first-Found frame n off (some s) rest (inr (c, e)) k = inr (off, c, cc)
first-Found frame n off none rest f k = k

search_payload_lem :
    (k : ℕ) (frame : List ℕ) (n off : ℕ)
    → 8 ≤ off
    → off + k ≤ 13
    → Leads frame n (search_payload k frame n off)
unfolding search_payload
search_payload_lem zero frame n off lo hi = inl refl
search_payload_lem (suc k) frame n off lo hi = elim (Bool-cases (leb (off + 2 + 17) (n - 2))) [
  | inl room ↦ rw room (
      first-Found frame n off (payload_at frame n off) (search_payload k frame n (off + 1))
        (payload_at_lem frame n off lo (omega arith) (leb→le (off + 2 + 17) (n - 2) room))
        (search_payload_lem k frame n (off + 1) (omega arith) (omega arith)))
  | inr none_left ↦ inl (rw none_left refl)
]

-- A frame leads to a call of the callback only if it carries the RC push command at one of the offsets
-- 8 to 12, with 17 bytes between it and the checksum; the state is then decoded from those bytes, and
-- never from bytes behind the frame. Any other frame leads to none.
pub deliver_lem : (frame : List ℕ) (n : ℕ) → Leads frame n (deliver frame n)
unfolding deliver
deliver_lem frame n =
    first-Found frame n 9 (standard_payload frame n)
      (if leb 14 n then search_payload 5 frame n 8 else other_frame) (standard_payload_lem frame n)
      (searched (leb 14 n))
  where
    searched : (b : Bool) → Leads frame n (if b then search_payload 5 frame n 8 else other_frame)
    searched true = search_payload_lem 5 frame n 8 (omega arith) (omega arith)
    searched false = inl refl
