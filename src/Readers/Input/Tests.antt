-- ===== src/Readers/Input/Tests.antt =====
-- A device that moves an axis and reports, its bytes read one at a time.
use rc_monitor.Base.{
  ℕ, ◌≤◌, ◌≡◌, ◌≢◌, refl, arith, List, [], ◌∷◌, ◌++◌, map, length, Option, none, some,
}
use rc_monitor.Base.Int.{pos, negsuc, ◌-ℤ◌}
use rc_monitor.Payload.{parse_payload}
use rc_monitor.Emulator.{build_payload}
use rc_monitor.Emulator.Session.{zeroed}
use rc_monitor.Readers.Input.{Sticks, centre, Source, input_payload, read_events}
use rc_monitor.Readers.Input.Payload.{
  FitSticks, controller, sticks_only, parse_payload-input_payload,
}
use rc_monitor.Readers.Input.Loop.{Documented, Reports, read_events_lem}

-- ABS_Y to 0x102, then a report, then half an event.
abbrev device : List ℕ
device =
    0 ∷ 0 ∷ 0 ∷ 0 ∷ 0 ∷ 0 ∷ 0 ∷ 0 ∷ 0 ∷ 0 ∷ 0 ∷ 0 ∷ 0 ∷ 0 ∷ 0 ∷ 0 ∷ 3 ∷ 0 ∷ 1 ∷ 0 ∷ 2 ∷ 1 ∷ 0 ∷ 0
    ∷ 0 ∷ 0 ∷ 0 ∷ 0 ∷ 0 ∷ 0 ∷ 0 ∷ 0 ∷ 0 ∷ 0 ∷ 0 ∷ 0 ∷ 0 ∷ 0 ∷ 0 ∷ 0 ∷ 0 ∷ 0 ∷ 0 ∷ 0 ∷ 0 ∷ 0 ∷ 0 ∷ 0
    ∷ 0 ∷ 0 ∷ 0 ∷ []

unfoldable read_one : List ℕ → ℕ → Option (List ℕ) × List ℕ
read_one [] k = (none, [])
read_one (b ∷ bs) k = (some (b ∷ []), bs)

abbrev one_by_one : Source (List ℕ)
one_by_one = record { read = read_one }

read_one-end : (f : List ℕ) (k : ℕ) → 1 ≤ k → f ≡ [] → (g : List ℕ) × (read_one f k ≡ (none, g))
unfolding read_one
read_one-end [] k h e = ([], refl)
read_one-end (b ∷ bs) k h e = cc

read_one-ready :
    (f : List ℕ) (k : ℕ)
    → 1 ≤ k
    → f ≢ []
    → (c : List ℕ) × (g : List ℕ) × (read_one f k ≡ (some c, g))
      × (1 ≤ length c)
      × (length c ≤ k)
      × (f ≡ c ++ g)
unfolding read_one
read_one-ready [] k h there = absurd (there refl)
read_one-ready (b ∷ bs) k h there = (b ∷ [], bs, refl, omega arith, omega arith, refl)

one_by_one-Documented : Documented one_by_one (λ f. f)
one_by_one-Documented = record { at_end = read_one-end; ready = read_one-ready }

read_events_lem_example :
    (ss : List Sticks) × (read_events one_by_one (λ v. v) 60 device centre
      ≡ some (map input_payload ss))
    × Reports (λ v. v) centre device ss
read_events_lem_example =
    read_events_lem one_by_one (λ f. f) one_by_one-Documented (λ v. v) 60 device centre
      (omega arith)

abbrev tilted : Sticks
tilted = record { right_h = pos 660; right_v = negsuc 659; left_v = pos 7; left_h = negsuc 0 }

tilted-FitSticks : FitSticks tilted
unfolding ◌-ℤ◌
tilted-FitSticks = record {
  right_h = (omega arith, omega arith);
  right_v = (omega arith, omega arith);
  left_v = (omega arith, omega arith);
  left_h = (omega arith, omega arith);
}

parse_payload-input_payload_example :
    (input_payload tilted ≡ build_payload (controller tilted))
    × (parse_payload (some (input_payload tilted)) (length (input_payload tilted)) (some zeroed)
        ≡ (pos 0, some (sticks_only tilted)))
parse_payload-input_payload_example = parse_payload-input_payload tilted zeroed tilted-FitSticks
