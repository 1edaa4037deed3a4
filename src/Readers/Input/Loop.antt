-- ===== src/Readers/Input/Loop.antt =====
-- The read loop of InputEventReader: however the device's bytes arrive, its events are the same.
use rc_monitor.Base.{
  ℕ, zero, suc, ◌+◌, ◌-◌, ◌<◌, ◌≤◌, ◌≡◌, ◌≢◌, refl, sym, ap, ◌∙◌, subst, arith, inl, inr, List, [],
  ◌∷◌, ◌++◌, map, length, length-append, append_assoc, append-nil, Option, none, some, ltb, ltb→lt,
  ltb→ge, Bool-cases, ◌⊎◌, ◌==◌, ==_iff,
}
use rc_monitor.Base.Int.{ℤ}
use rc_monitor.Readers.Input.{
  Sticks, Source, input_payload, parse_event, move_axis, on_event, filled_by, fill, with_event,
  read_events, ev_abs, ev_syn,
}

-- The documentation of `read` for a device of which `remaining` is still to come: at least one byte
-- and no more than asked for, or -1 at the end.
pub record Documented {F : Type 0} (source : Source F) (remaining : F → List ℕ) : Type 0 where
  pub at_end : (f : F) (k : ℕ) → 1 ≤ k → remaining f ≡ [] → (g : F) × (source.read f k ≡ (none, g))
  pub ready :
      (f : F) (k : ℕ)
      → 1 ≤ k
      → remaining f ≢ []
      → (c : List ℕ) × (g : F) × (source.read f k ≡ (some c, g))
        × (1 ≤ length c)
        × (length c ≤ k)
        × (remaining f ≡ c ++ remaining g)

-- The sticks after an event.
abbrev pub moved : (ℤ → ℤ) → List ℕ → Sticks → Sticks
moved scale e s = (on_event scale (parse_event e) s).0

-- `Reports scale s bytes ss`: from the sticks `s` on, the events that `bytes` begins with report the
-- sticks `ss`, in order.
pub data Reports (scale : ℤ → ℤ) : Sticks → List ℕ → List Sticks → Type 0 where
  cut_off : {s : Sticks} {bytes : List ℕ} → length bytes < 24 → Reports scale s bytes []
  report :
      {s : Sticks} {bytes : List ℕ} {ss : List Sticks} (e : List ℕ)
      → length e ≡ 24
      → (parse_event e).type ≡ ev_syn
      → Reports scale s bytes ss
      → Reports scale s (e ++ bytes) (s ∷ ss)
  move :
      {s : Sticks} {bytes : List ℕ} {ss : List Sticks} (e : List ℕ)
      → length e ≡ 24
      → (parse_event e).type ≡ ev_abs
      → Reports scale (move_axis (parse_event e).code (scale (parse_event e).value) s) bytes ss
      → Reports scale s (e ++ bytes) ss
  ignore :
      {s : Sticks} {bytes : List ℕ} {ss : List Sticks} (e : List ℕ)
      → length e ≡ 24
      → (parse_event e).type ≢ ev_syn
      → (parse_event e).type ≢ ev_abs
      → Reports scale s bytes ss
      → Reports scale s (e ++ bytes) ss

List-cases : (xs : List ℕ) → (xs ≡ []) ⊎ (xs ≢ [])
List-cases [] = inl refl
List-cases (x ∷ xs) = inr (λ e. cc)

module _ {F : Type 0} (source : Source F) (remaining : F → List ℕ)
    (doc : Documented source remaining) where
  -- What the inner loop comes to.
  data Filled (start : List ℕ) : Option (List ℕ) → F → Type 0 where
    ended : {g : F} → length start < 24 → Filled start none g
    whole :
        {g : F} (b : List ℕ) → length b ≡ 24 → start ≡ b ++ remaining g → Filled start (some b) g

  fill_lem :
      (fuel : ℕ) (f : F) (buf : List ℕ)
      → length buf ≤ 24
      → 24 < fuel + length buf
      → (r : Option (List ℕ)) × (g : F) × (fill source fuel f buf ≡ some (r, g))
        × Filled (buf ++ remaining f) r g
  unfolding fill filled_by
  fill_lem zero f buf room enough = absurd (omega arith)
  fill_lem (suc fuel) f buf room enough = elim (Bool-cases (ltb (length buf) 24)) [
    | inr full ↦
        (some buf, f, rw full refl, whole buf (omega (arith, ltb→ge (length buf) 24 full)) refl)
    | inl less ↦
        let lt = ltb→lt (length buf) 24 less in
        elim (List-cases (remaining f)) [
          | inl over ↦
              let (g, e) = doc.at_end f (24 - length buf) (omega arith) over in
              (
                none,
                g,
                rw less (ap (filled_by (fill source fuel) buf) e),
                ended (
                    subst (λ l. length (buf ++ l) < 24) (sym over)
                      (subst (λ l. length l < 24) (sym (append-nil buf)) lt)),
              )
          | inr there ↦
              let (c, g, e, one, fits, split) = doc.ready f (24 - length buf) (omega arith) there in
              let (r, h, d, out) =
                fill_lem fuel g (buf ++ c) (omega (arith, length-append buf c, fits))
                  (omega (arith, length-append buf c, one)) in
              (
                r,
                h,
                rw less (ap (filled_by (fill source fuel) buf) e ∙ d),
                subst (λ l. Filled l r h)
                    (append_assoc buf c (remaining g) ∙ ap (λ l. buf ++ l) (sym split)) out,
              )
        ]
  ]

  -- By the event that was read.
  by_event :
      (scale : ℤ → ℤ) (e : List ℕ) (s : Sticks) {bytes : List ℕ} {ss : List Sticks}
      → length e ≡ 24
      → Reports scale (on_event scale (parse_event e) s).0 bytes ss
      → (ts : List Sticks) × (map input_payload ts
          ≡ (on_event scale (parse_event e) s).1 ++ map input_payload ss)
        × Reports scale s (e ++ bytes) ts
  unfolding on_event
  by_event scale e s {bytes} {ss} size t = elim (Bool-cases ((parse_event e).type == ev_abs)) [
    | inl axis ↦
        let to : Sticks = move_axis (parse_event e).code (scale (parse_event e).value) s in
        let q : on_event scale (parse_event e) s ≡ (to, []) = rw axis refl in
        (
          ss,
          ap (λ r. r.1 ++ map input_payload ss) (sym q),
          move e size ((==_iff _ _).0 axis) (subst (λ r. Reports scale r.0 bytes ss) q t),
        )
    | inr not_axis ↦ elim (Bool-cases ((parse_event e).type == ev_syn)) [
      | inl syn ↦
          let q : on_event scale (parse_event e) s ≡ (s, input_payload s ∷ []) =
            rw (not_axis, syn) refl in
          (
            s ∷ ss,
            ap (λ r. r.1 ++ map input_payload ss) (sym q),
            report e size ((==_iff _ _).0 syn) (subst (λ r. Reports scale r.0 bytes ss) q t),
          )
      | inr other ↦
          let q : on_event scale (parse_event e) s ≡ (s, []) = rw (not_axis, other) refl in
          (
            ss,
            ap (λ r. r.1 ++ map input_payload ss) (sym q),
            ignore e size (ground (arith, other)) (ground (arith, not_axis))
                (subst (λ r. Reports scale r.0 bytes ss) q t),
          )
    ]
  ]

  with_event_lem :
      (scale : ℤ → ℤ) (rest : F → Sticks → Option (List (List ℕ))) (s : Sticks) (n : ℕ)
      {left : List ℕ} {r : Option (List ℕ)} {g : F}
      → Filled left r g
      → length left < suc n
      → ((u : Sticks)
          → length (remaining g) < n
          → (ss : List Sticks) × (rest g u ≡ some (map input_payload ss))
            × Reports scale u (remaining g) ss)
      → (ss : List Sticks) × (with_event source scale rest s (some (r, g))
          ≡ some (map input_payload ss))
        × Reports scale s left ss
  unfolding with_event
  with_event_lem scale rest s n (ended lt) enough next = ([], refl, cut_off lt)
  with_event_lem scale rest s n {g = g} (whole b size split) enough next =
      let (ss, e, t) =
        next (moved scale b s) (omega (arith, ap length split, length-append b (remaining g))) in
      let (ts, m, u) = by_event scale b s size t in
      (ts, rw (e, with_event) (ap some (sym m)), subst (λ l. Reports scale s l ts) (sym split) u)

  -- However the device's bytes are cut into reads, with more fuel than bytes the loop returns: it feeds,
  -- in order, a payload for each report among the whole events of 24 bytes, with the sticks where the
  -- events before it have moved them; bytes at the end that make no whole event lead to nothing.
  pub read_events_lem :
      (scale : ℤ → ℤ) (fuel : ℕ) (f : F) (s : Sticks)
      → length (remaining f) < fuel
      → (ss : List Sticks) × (read_events source scale fuel f s ≡ some (map input_payload ss))
        × Reports scale s (remaining f) ss
  unfolding read_events
  read_events_lem scale zero f s enough = absurd (omega arith)
  read_events_lem scale (suc fuel) f s enough =
      let (r, g, e, out) = fill_lem 25 f [] (omega arith) (omega arith) in
      let (ss, n, t) =
        with_event_lem scale (read_events source scale fuel) s fuel out enough
          (λ u h. read_events_lem scale fuel g u h) in
      (ss, ap (with_event source scale (read_events source scale fuel) s) e ∙ n, t)
