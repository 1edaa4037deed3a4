-- ===== src/Scan/Laws.antt =====
-- The relation is a function, total and deterministic, and what it finds does not depend on how the
-- string arrives.
use rc_monitor.Base.{
  ℕ, zero, suc, ◌+◌, ◌-◌, ◌<◌, ◌≤◌, ◌≡◌, ◌≢◌, refl, sym, ap, ap₂, ◌∙◌, subst, ◌⊎◌, arith,
}
use rc_monitor.Base.{true, List, [], ◌∷◌, ◌++◌, take, drop, length, inl, inr, Bool-cases}
use rc_monitor.Base.{
  length-append, length-drop, take-append_left, drop-append_left, get_or-append_left, ltb,
}
use native.Mathlib.Decide.{dec_lt}
use native.Mathlib.Nat.{le_refl}
use rc_monitor.Scan.{
  announced, header_ok, frame_ok, Front, incomplete, skip, frame, body_front, front, Scans, stop,
  pass, found,
}

pub announced-lt : (xs : List ℕ) → announced xs < 1024
unfolding announced
announced-lt xs = omega arith

pub header_ok-min : (xs : List ℕ) → header_ok xs ≡ true → 13 ≤ announced xs
unfolding header_ok
header_ok-min xs h = ground arith

-- A decision to go on removes at least one byte and no more than there are.
pub record Removes (xs : List ℕ) (n : ℕ) : Type 0 where
  pub some_byte : 1 ≤ n
  pub within : n ≤ length xs

body_front-skip :
    (xs : List ℕ) {n : ℕ} → header_ok xs ≡ true → body_front xs ≡ skip n → Removes xs n
unfolding body_front
body_front-skip xs h e = ground (arith, header_ok-min xs)

body_front-frame :
    (xs : List ℕ) {n : ℕ}
    → header_ok xs ≡ true
    → body_front xs ≡ frame n
    → Removes xs n × (n ≡ announced xs) × (frame_ok xs n ≡ true)
unfolding body_front
body_front-frame xs h e = ground (arith, header_ok-min xs)

pub front-skip : (xs : List ℕ) {n : ℕ} → front xs ≡ skip n → Removes xs n
unfolding front
front-skip xs {n} e = ground (arith, body_front-skip xs {n = n})

pub front-frame : (xs : List ℕ) {n : ℕ} → front xs ≡ frame n → Removes xs n
unfolding front
front-frame xs {n} e = ground (arith, body_front-frame xs {n = n})

pub front_empty : (xs : List ℕ) → length xs ≡ 0 → front xs ≡ incomplete
unfolding front
front_empty xs e = ground arith

-- What may still become a frame is short: a header announces at most 1023 bytes.
pub front-incomplete : (xs : List ℕ) → front xs ≡ incomplete → length xs < 1024
unfolding front body_front
front-incomplete xs e = ground (arith, announced-lt xs)

pub announced-append : (xs ys : List ℕ) → 3 ≤ length xs → announced (xs ++ ys) ≡ announced xs
unfolding announced
announced-append xs ys h =
    rw (get_or-append_left xs ys 1 0 (omega arith), get_or-append_left xs ys 2 0 (omega arith))

pub header_ok-append : (xs ys : List ℕ) → 4 ≤ length xs → header_ok (xs ++ ys) ≡ header_ok xs
unfolding header_ok
header_ok-append xs ys h = rw (
  announced-append xs ys (omega arith),
  take-append_left 3 xs ys (omega arith),
  get_or-append_left xs ys 3 0 h,
)

pub frame_ok-append :
    (xs ys : List ℕ) (n : ℕ) → 13 ≤ n → n ≤ length xs → frame_ok (xs ++ ys) n ≡ frame_ok xs n
unfolding frame_ok
frame_ok-append xs ys n h k = rw (
  take-append_left (n - 2) xs ys (omega arith),
  get_or-append_left xs ys (n - 2) 0 (omega arith),
  get_or-append_left xs ys (n - 2 + 1) 0 (omega arith),
)

body_front-append :
    (xs ys : List ℕ)
    → 4 ≤ length xs
    → header_ok xs ≡ true
    → body_front xs ≢ incomplete
    → body_front (xs ++ ys) ≡ body_front xs
unfolding body_front
body_front-append xs ys h ok settled = elim (Bool-cases (ltb (length xs) (announced xs))) [
  | inl short ↦ absurd (settled (rw short refl))
  | inr long ↦ ground (
    arith,
    announced-append xs ys (omega arith),
    length-append xs ys,
    header_ok-min xs ok,
    frame_ok-append xs ys (announced xs),
  )
]

-- A settled decision about the front does not change when more bytes arrive.
pub front-append : (xs ys : List ℕ) → front xs ≢ incomplete → front (xs ++ ys) ≡ front xs
unfolding front
front-append xs ys settled = elim (dec_lt 0 (length xs)) [
  | yes p ↦ elim (dec_lt (length xs) 4) [
    | yes q ↦ ground (arith, length-append xs ys, get_or-append_left xs ys 0 0)
    | no q ↦ ground (
      arith,
      length-append xs ys,
      get_or-append_left xs ys 0 0,
      header_ok-append xs ys,
      body_front-append xs ys,
    )
  ]
  | no p ↦ absurd (settled (ground arith))
]

-- What is left over may still become a frame.
pub Scans-rest :
    {xs : List ℕ} {fs : List (List ℕ)} {r : List ℕ} → Scans xs fs r → front r ≡ incomplete
Scans-rest (stop p) = p
Scans-rest (pass n p t) = Scans-rest t
Scans-rest (found n p t) = Scans-rest t

-- No string has two divisions.
pub Scans-functional :
    {xs : List ℕ} {fs gs : List (List ℕ)} {r s : List ℕ}
    → Scans xs fs r
    → Scans xs gs s
    → (fs ≡ gs) × (r ≡ s)
Scans-functional (stop p) (stop q) = (refl, refl)
Scans-functional (stop p) (pass m q t) = cc
Scans-functional (stop p) (found m q t) = cc
Scans-functional (pass n p t) (stop q) = cc
Scans-functional {xs} {gs = gs} {s = s} (pass n p t) (pass m q u) =
    let same : m ≡ n = cc in Scans-functional t (subst (λ k. Scans (drop k xs) gs s) same u)
Scans-functional (pass n p t) (found m q u) = cc
Scans-functional (found n p t) (stop q) = cc
Scans-functional (found n p t) (pass m q u) = cc
Scans-functional {xs} {s = s} (found n p t) (found {fs = gs} m q u) =
    let same : m ≡ n = cc in
    let rest = Scans-functional t (subst (λ k. Scans (drop k xs) gs s) same u) in
    (ap₂ ◌∷◌ (ap (λ k. take k xs) (sym same)) rest.0, rest.1)

skip-append :
    (xs ys : List ℕ) {n : ℕ}
    → front xs ≡ skip n
    → (front (xs ++ ys) ≡ skip n) × (drop n (xs ++ ys) ≡ drop n xs ++ ys)
skip-append xs ys {n} p =
    (front-append xs ys (λ e. cc) ∙ p, drop-append_left n xs ys (front-skip xs p).within)

frame-append :
    (xs ys : List ℕ) {n : ℕ}
    → front xs ≡ frame n
    → (front (xs ++ ys) ≡ frame n)
      × (drop n (xs ++ ys) ≡ drop n xs ++ ys)
      × (take n (xs ++ ys) ≡ take n xs)
frame-append xs ys {n} p = (
  front-append xs ys (λ e. cc) ∙ p,
  drop-append_left n xs ys (front-frame xs p).within,
  take-append_left n xs ys (front-frame xs p).within,
)

-- A division goes on where the first part left off: at the bytes that were left, with those that
-- follow.
pub Scans-append :
    {xs : List ℕ} {fs : List (List ℕ)} {r : List ℕ} (ys : List ℕ) {gs : List (List ℕ)} {s : List ℕ}
    → Scans xs fs r
    → Scans (r ++ ys) gs s
    → Scans (xs ++ ys) (fs ++ gs) s
Scans-append ys (stop p) t = t
Scans-append {xs} {fs} ys {gs} {s} (pass n p u) t =
    let (e, d) = skip-append xs ys p in
    pass n e (subst (λ l. Scans l (fs ++ gs) s) (sym d) (Scans-append ys u t))
Scans-append {xs} ys {gs} {s} (found {fs = fs} n p u) t =
    let (e, d, k) = frame-append xs ys p in
    subst (λ l. Scans (xs ++ ys) (l ∷ (fs ++ gs)) s) k
      (found n e (subst (λ l. Scans l (fs ++ gs) s) (sym d) (Scans-append ys u t)))

front-cases :
    (x : Front) → (x ≡ incomplete) ⊎ (((n : ℕ) × (x ≡ skip n)) ⊎ ((n : ℕ) × (x ≡ frame n)))
front-cases incomplete = inl refl
front-cases (skip n) = inr (inl (n, refl))
front-cases (frame n) = inr (inr (n, refl))

Scans_bound :
    (k : ℕ) (xs : List ℕ) → length xs ≤ k → (fs : List (List ℕ)) × (r : List ℕ) × Scans xs fs r
Scans_bound k xs h = go k xs h (front-cases (front xs))
  where
    shorter : (n : ℕ) (xs : List ℕ) → Removes xs n → length (drop n xs) < length xs
    shorter n xs v = omega (arith, length-drop n xs)

    go :
        (k : ℕ) (xs : List ℕ)
        → length xs ≤ k
        → (front xs ≡ incomplete)
          ⊎ (((n : ℕ) × (front xs ≡ skip n)) ⊎ ((n : ℕ) × (front xs ≡ frame n)))
        → (fs : List (List ℕ)) × (r : List ℕ) × Scans xs fs r
    go k xs h (inl e) = ([], xs, stop e)
    go zero xs h (inr (inl (n, e))) = absurd (omega (arith, shorter n xs (front-skip xs e)))
    go zero xs h (inr (inr (n, e))) = absurd (omega (arith, shorter n xs (front-frame xs e)))
    go (suc k) xs h (inr (inl (n, e))) =
        let (fs, r, t) =
          go k (drop n xs) (omega (arith, shorter n xs (front-skip xs e)))
            (front-cases (front (drop n xs))) in
        (fs, r, pass n e t)
    go (suc k) xs h (inr (inr (n, e))) =
        let (fs, r, t) =
          go k (drop n xs) (omega (arith, shorter n xs (front-frame xs e)))
            (front-cases (front (drop n xs))) in
        (take n xs ∷ fs, r, found n e t)

-- Every string of bytes divides into frames in exactly one way, and what is left over is shorter than
-- 1024 bytes.
pub Scans_unique_division :
    (xs : List ℕ)
    → (fs : List (List ℕ)) × (r : List ℕ) × Scans xs fs r
      × (length r < 1024)
      × ((gs : List (List ℕ)) (s : List ℕ) → Scans xs gs s → (gs ≡ fs) × (s ≡ r))
Scans_unique_division xs =
    let (fs, r, t) = Scans_bound (length xs) xs (le_refl (length xs)) in
    (fs, r, t, front-incomplete r (Scans-rest t), λ gs s u. Scans-functional u t)
