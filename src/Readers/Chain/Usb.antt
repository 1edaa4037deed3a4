-- ===== src/Readers/Chain/Usb.antt =====
-- DussStreamReader and UsbRcReader as the readers of a chain, in its order: they keep what the interface
-- promises.
use rc_monitor.Base.{zero, suc, ◌≡◌, refl, sym, ◌∙◌, ◌⊎◌, inl, inr, none, some, Bool, true, false}
use rc_monitor.Jni.Vm.{Machine, Ref}
use rc_monitor.Readers.Usb.{Reader, Answers, usb_start, usb_stop, find_dji_device}
use rc_monitor.Readers.Usb.Held.{Started, started, refused, usb_start_lem, duss_start_lem}
use rc_monitor.Readers.Duss.{duss_start, duss_is_available}
use rc_monitor.Readers.Chain.{RcReader, Documented}

-- `isAvailable` of UsbRcReader: whether there is a device.
unfoldable pub usb_is_available : Answers → Bool
usb_is_available a = elim (find_dji_device a.devices) [ none ↦ false | some d ↦ true ]

-- What the USB service would answer, and the two readers. There is one bridge for both.
pub record Attached (W : Type 0) : Type 0 where
  pub answers : Answers
  pub duss : Reader W
  pub usb : Reader W

module _ {W : Type 0} (vm : Machine W) (listener : Ref) where
  -- Reader 0 is the DussStreamReader and reader 1 the UsbRcReader; there is no other.
  unfoldable pub start_one : Ref → Attached W → Bool × Attached W
  start_one zero w =
      let (ok, r) = duss_start vm w.answers listener w.duss in
      (ok, record w { duss = r; usb = record w.usb { bridge = r.bridge } })
  start_one (suc zero) w =
      let (ok, r) = usb_start vm w.answers listener w.usb in
      (ok, record w { usb = r; duss = record w.duss { bridge = r.bridge } })
  start_one (suc (suc r)) w = (false, w)

  unfoldable pub stop_one : Ref → Attached W → Attached W
  stop_one zero w = record w { duss = usb_stop w.duss }
  stop_one (suc zero) w = record w { usb = usb_stop w.usb }
  stop_one (suc (suc r)) w = w

  unfoldable pub runs_one : Ref → Attached W → Bool
  runs_one zero w = w.duss.running
  runs_one (suc zero) w = w.usb.running
  runs_one (suc (suc r)) w = false

  unfoldable pub is_available_one : Ref → Attached W → Bool × Attached W
  is_available_one zero w = (duss_is_available w.answers, w)
  is_available_one (suc zero) w = (usb_is_available w.answers, w)
  is_available_one (suc (suc r)) w = (false, w)

  abbrev pub usb_readers : RcReader (Attached W)
  usb_readers = record {
    start = start_one;
    stop = stop_one;
    is_running = runs_one;
    is_available = is_available_one;
  }

  only_if_Started :
      (r : Reader W) (y : Bool × Reader W)
      → Started r y
      → y.1.running ≡ true
      → (y.0 ≡ true) ⊎ (r.running ≡ true)
  only_if_Started r y (started run was now op cl th re co) h = inl refl
  only_if_Started r y (refused run ini op cl th re co) h = inr (sym run ∙ h)

  start_one_lem :
      (r x : Ref) (w : Attached W)
      → runs_one x (start_one r w).1 ≡ true
      → ((x ≡ r) × ((start_one r w).0 ≡ true)) ⊎ (runs_one x w ≡ true)
  unfolding start_one runs_one
  start_one_lem zero zero w h =
      elim (only_if_Started w.duss (duss_start vm w.answers listener w.duss)
        (duss_start_lem vm w.answers listener w.duss) h) [
          | inl ok ↦ inl (refl, ok)
          | inr still ↦ inr still
        ]
  start_one_lem zero (suc zero) w h = inr h
  start_one_lem zero (suc (suc x)) w h = inr h
  start_one_lem (suc zero) zero w h = inr h
  start_one_lem (suc zero) (suc zero) w h =
      elim (only_if_Started w.usb (usb_start vm w.answers listener w.usb)
        (usb_start_lem vm w.answers listener w.usb) h) [
          | inl ok ↦ inl (refl, ok)
          | inr still ↦ inr still
        ]
  start_one_lem (suc zero) (suc (suc x)) w h = inr h
  start_one_lem (suc (suc r)) x w h = inr h

  stop_one-stops : (r : Ref) (w : Attached W) → runs_one r (stop_one r w) ≡ false
  unfolding stop_one runs_one usb_stop
  stop_one-stops zero w = refl
  stop_one-stops (suc zero) w = refl
  stop_one-stops (suc (suc r)) w = refl

  stop_one-only :
      (r x : Ref) (w : Attached W) → runs_one x (stop_one r w) ≡ true → runs_one x w ≡ true
  unfolding stop_one runs_one usb_stop
  stop_one-only zero zero w h = cc
  stop_one-only zero (suc zero) w h = h
  stop_one-only zero (suc (suc x)) w h = h
  stop_one-only (suc zero) zero w h = h
  stop_one-only (suc zero) (suc zero) w h = cc
  stop_one-only (suc zero) (suc (suc x)) w h = h
  stop_one-only (suc (suc r)) x w h = h

  is_available_one-only :
      (r x : Ref) (w : Attached W)
      → runs_one x (is_available_one r w).1 ≡ true
      → runs_one x w ≡ true
  unfolding is_available_one
  is_available_one-only zero x w h = h
  is_available_one-only (suc zero) x w h = h
  is_available_one-only (suc (suc r)) x w h = h

  -- DussStreamReader and UsbRcReader keep the contract of RcReader: only a start that returns true makes
  -- a reader run, after its stop it does not run, and none of this, nor the question whether it is
  -- available, makes another run.
  pub usb_readers-Documented : Documented usb_readers
  usb_readers-Documented = record {
    start_only = start_one_lem;
    stop_stops = stop_one-stops;
    stop_only = stop_one-only;
    available_only = is_available_one-only;
  }
