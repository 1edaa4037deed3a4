-- ===== src/Readers/Chain/Active.antt =====
-- Which readers of a chain run.
use rc_monitor.Base.{
  subst, ◌≡◌, refl, sym, ap, ◌∙◌, ◌⊎◌, inl, inr, List, [], ◌∷◌, Option, none, some, Bool, true,
  false,
}
use rc_monitor.Jni.Vm.{Ref}
use rc_monitor.Readers.Chain.{
  RcReader, Documented, Chain, chain_stop, after_start, after_available, start_first, chain_start,
}

module _ {W : Type 0} (reader : RcReader W) where
  -- A call of the chain, or readers that stop by themselves.
  pub data Step (readers : List Ref) (c d : Chain W) : Type 0 where
    start_call : d ≡ chain_start reader readers c → Step readers c d
    stop_call : d ≡ chain_stop reader c → Step readers c d
    readers_stop :
        d.active ≡ c.active
        → ((x : Ref) → reader.is_running x d.world ≡ true → reader.is_running x c.world ≡ true)
        → Step readers c d

  pub data Reach (readers : List Ref) (c : Chain W) : Chain W → Type 0 where
    here : Reach readers c c
    next : {d e : Chain W} → Reach readers c d → Step readers d e → Reach readers c e

  -- No reader runs but the active one.
  pub record IsExclusive (c : Chain W) : Type 0 where
    pub only : (x : Ref) → reader.is_running x c.world ≡ true → c.active ≡ some x

  -- No reader runs.
  abbrev pub IsQuiet : W → Type 0
  IsQuiet w = (x : Ref) → ¬ (reader.is_running x w ≡ true)

  -- What runs is the reader that is named.
  abbrev Fits : Option Ref × W → Type 0
  Fits y = (x : Ref) → reader.is_running x y.1 ≡ true → y.0 ≡ some x

module _ {W : Type 0} (reader : RcReader W) (doc : Documented reader) where
  stop_active :
      (c : Chain W) (r : Ref)
      → IsExclusive reader c
      → c.active ≡ some r
      → IsQuiet reader (reader.stop r c.world)
  stop_active c r v e x runs =
      let at = v.only x (doc.stop_only r x c.world runs) in
      let same : x ≡ r = cc in
      let runs_still = subst (λ y. reader.is_running y (reader.stop r c.world) ≡ true) same runs in
      cc (doc.stop_stops r c.world, runs_still)

  chain_stop-IsQuiet :
      (c : Chain W)
      → IsExclusive reader c
      → ((chain_stop reader c).active ≡ none) × IsQuiet reader (chain_stop reader c).world
  unfolding chain_stop
  chain_stop-IsQuiet c v = by_active c.active refl
    where
      by_active :
          (a : Option Ref)
          → c.active ≡ a
          → let d : Chain W = elim a [
            | none ↦ c
            | some r ↦ record { active = none; world = reader.stop r c.world }
          ] in
            (d.active ≡ none) × IsQuiet reader d.world
      by_active none e = (e, λ x runs. let at = v.only x runs in cc)
      by_active (some r) e = (refl, stop_active c r v e)

  after_start_lem :
      (rest : W → Option Ref × W) (r : Ref) (s : Bool × W)
      → ((w : W) → IsQuiet reader w → Fits reader (rest w))
      → ((x : Ref) → reader.is_running x s.1 ≡ true → (x ≡ r) × (s.0 ≡ true))
      → Fits reader (after_start reader rest r s)
  unfolding after_start
  after_start_lem rest r (true, w) others h x runs = ap some (sym (h x runs).0)
  after_start_lem rest r (false, w) others h x runs =
      others w (λ y runs_y. let e = (h y runs_y).1 in cc) x runs

  after_available_lem :
      (rest : W → Option Ref × W) (r : Ref) (a : Bool × W)
      → ((w : W) → IsQuiet reader w → Fits reader (rest w))
      → IsQuiet reader a.1
      → Fits reader (after_available reader rest r a)
  unfolding after_available
  after_available_lem rest r (false, w) others quiet = others w quiet
  after_available_lem rest r (true, w) others quiet =
      after_start_lem rest r (reader.start r w) others
        (λ x runs. started x (doc.start_only r x w runs))
    where
      started :
          (x : Ref)
          → ((x ≡ r) × ((reader.start r w).0 ≡ true)) ⊎ (reader.is_running x w ≡ true)
          → (x ≡ r) × ((reader.start r w).0 ≡ true)
      started x (inl h) = h
      started x (inr still) = absurd (quiet x still)

  start_first_lem :
      (rs : List Ref) (w : W) → IsQuiet reader w → Fits reader (start_first reader rs w)
  unfolding start_first
  start_first_lem [] w quiet x runs = absurd (quiet x runs)
  start_first_lem (r ∷ rs) w quiet x runs =
      after_available_lem (start_first reader rs) r (reader.is_available r w)
        (λ u q. start_first_lem rs u q) (λ y runs_y. quiet y (doc.available_only r y w runs_y)) x
        runs

  step-IsExclusive :
      (readers : List Ref) (c d : Chain W)
      → Step reader readers c d
      → IsExclusive reader c
      → IsExclusive reader d
  unfolding chain_start
  step-IsExclusive readers c d (start_call e) v = subst (IsExclusive reader) (sym e) (record {
    only = start_first_lem readers (chain_stop reader c).world (chain_stop-IsQuiet c v).1;
  })
  step-IsExclusive readers c d (stop_call e) v =
      subst (IsExclusive reader) (sym e)
        (record { only = λ x runs. absurd ((chain_stop-IsQuiet c v).1 x runs) })
  step-IsExclusive readers c d (readers_stop same fewer) v = record {
    only = λ x runs. same ∙ v.only x (fewer x runs);
  }

  Reach-IsExclusive :
      (readers : List Ref) (c d : Chain W)
      → IsExclusive reader c
      → Reach reader readers c d
      → IsExclusive reader d
  Reach-IsExclusive readers c d v here = v
  Reach-IsExclusive readers c d v (next t s) =
      step-IsExclusive readers _ d s (Reach-IsExclusive readers c _ v t)

  -- From a chain of which no reader runs but the active one, after any calls of start and stop, and
  -- wherever readers stop by themselves, still no reader runs but the active one; a further stop leaves
  -- none active and none running.
  pub chain-IsExclusive :
      (readers : List Ref) (c d : Chain W)
      → IsExclusive reader c
      → Reach reader readers c d
      → IsExclusive reader d
        × ((chain_stop reader d).active ≡ none)
        × IsQuiet reader (chain_stop reader d).world
  chain-IsExclusive readers c d v t =
      let w = Reach-IsExclusive readers c d v t in
      (w, (chain_stop-IsQuiet d w).0, (chain_stop-IsQuiet d w).1)
