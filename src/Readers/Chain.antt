-- ===== src/Readers/Chain.antt =====
-- RcReaderChain.java over the interface RcReader.java: it stops the reader that was active and starts
-- the first that can be.
pub mod Active
pub mod Usb
mod Tests
use rc_monitor.Base.{ℕ, ◌≡◌, ◌⊎◌, List, [], ◌∷◌, Option, none, some, Bool, true, false}
use rc_monitor.Jni.Vm.{Ref}

-- `RcReader`, over what the readers' objects hold. `start` takes the listener of the chain.
pub record RcReader (W : Type 0) : Type 0 where
  pub start : Ref → W → Bool × W
  pub stop : Ref → W → W
  pub is_running : Ref → W → Bool
  pub is_available : Ref → W → Bool × W

-- The comments of the interface: what may change which readers run. A reader that runs may also stop by
-- itself, at any time.
pub record Documented {W : Type 0} (reader : RcReader W) : Type 0 where
  pub start_only :
      (r x : Ref) (w : W)
      → reader.is_running x (reader.start r w).1 ≡ true
      → ((x ≡ r) × ((reader.start r w).0 ≡ true)) ⊎ (reader.is_running x w ≡ true)
  pub stop_stops : (r : Ref) (w : W) → reader.is_running r (reader.stop r w) ≡ false
  pub stop_only :
      (r x : Ref) (w : W)
      → reader.is_running x (reader.stop r w) ≡ true
      → reader.is_running x w ≡ true
  pub available_only :
      (r x : Ref) (w : W)
      → reader.is_running x (reader.is_available r w).1 ≡ true
      → reader.is_running x w ≡ true

-- The field `active`, and what the readers hold.
pub record Chain (W : Type 0) : Type 0 where
  pub active : Option Ref
  pub world : W

module _ {W : Type 0} (reader : RcReader W) where
  -- `stop`
  unfoldable pub chain_stop : Chain W → Chain W
  chain_stop c = elim c.active [
    | none ↦ c
    | some r ↦ record { active = none; world = reader.stop r c.world }
  ]

  -- By what `reader.start` returned.
  unfoldable pub after_start : (W → Option Ref × W) → Ref → Bool × W → Option Ref × W
  after_start rest r (true, w) = (some r, w)
  after_start rest r (false, w) = rest w

  -- By what `reader.isAvailable` returned.
  unfoldable pub after_available : (W → Option Ref × W) → Ref → Bool × W → Option Ref × W
  after_available rest r (true, w) = after_start rest r (reader.start r w)
  after_available rest r (false, w) = rest w

  -- The loop of `start` over the readers.
  unfoldable pub start_first : List Ref → W → Option Ref × W
  start_first [] w = (none, w)
  start_first (r ∷ rs) w = after_available (start_first rs) r (reader.is_available r w)

  -- `start`, which returns the reader that is then active.
  unfoldable pub chain_start : List Ref → Chain W → Chain W
  chain_start rs c =
      let x = start_first rs (chain_stop c).world in record { active = x.0; world = x.1 }
