-- ===== src/Readers/Usb/Held.antt =====
-- What a call of `start` of UsbRcReader or DussStreamReader takes of the USB service, and gives back.
use rc_monitor.Base.{
  ◌+◌, ◌≡◌, refl, sym, ◌∙◌, arith, inl, inr, Option, none, some, Bool, true, false, not, Bool-cases,
  ◌⊎◌, if◌then◌else◌,
}
use rc_monitor.Jni.{Bridge, native_init}
use rc_monitor.Jni.Vm.{Machine, Ref}
use rc_monitor.Jni.Monitor.{monitor_init}
use rc_monitor.Readers.Usb.{
  Reader, Answers, Interface, Device, Endpoint, close, release, configure, both_endpoints,
  after_init, open_interface, find_protocol_interface, find_dji_device, with_interface, with_device,
  usb_start,
}
use rc_monitor.Readers.Duss.{
  interface_at, duss_interface_index, has_bulk_in, duss_open, duss_with_interface, duss_with_device,
  duss_start,
}

module _ {W : Type 0} where
  -- How a call of `start` comes out: with one more connection, claim and thread, or with none.
  pub data Started (r : Reader W) : Bool × Reader W → Type 0 where
    started :
        {q : Reader W}
        → q.running ≡ true
        → r.initialized ≡ false
        → q.initialized ≡ true
        → q.opened ≡ r.opened + 1
        → q.claimed ≡ r.claimed + 1
        → q.threads ≡ r.threads + 1
        → q.releasing ≡ r.releasing
        → q.closing ≡ r.closing
        → Started r (true, q)
    refused :
        {q : Reader W}
        → q.running ≡ r.running
        → q.initialized ≡ r.initialized
        → q.opened ≡ r.opened
        → q.claimed ≡ r.claimed
        → q.threads ≡ r.threads
        → q.releasing ≡ r.releasing
        → q.closing ≡ r.closing
        → Started r (false, q)

  nothing_held : (r : Reader W) → Started r (false, r)
  nothing_held r = refused refl refl refl refl refl refl refl

module _ {W : Type 0} (vm : Machine W) where
  -- `init` sets the flag if it succeeds, and leaves it if it fails.
  pub monitor_init_flag :
      (allocated_ctx allocated_parser flag : Bool) (listener : Ref) (b : Bridge W)
      → let i = monitor_init vm allocated_ctx allocated_parser listener flag b in
        ((i.0 ≡ true) × (i.1 ≡ true) × (flag ≡ false)) ⊎ ((i.0 ≡ false) × (i.1 ≡ flag))
  unfolding monitor_init
  monitor_init_flag c p true listener b = inr (refl, refl)
  monitor_init_flag c p false listener b = elim (Bool-cases (native_init vm c p listener b).0) [
    | inl y ↦ inl (y, y, refl)
    | inr n ↦ inr (n, n)
  ]

  after_init_lem :
      (i : Bool × Bool × Bridge W) (r q : Reader W)
      → ((i.0 ≡ true) × (i.1 ≡ true) × (q.initialized ≡ false))
        ⊎ ((i.0 ≡ false) × (i.1 ≡ q.initialized))
      → q.running ≡ r.running
      → q.initialized ≡ r.initialized
      → q.opened ≡ r.opened + 1
      → q.claimed ≡ r.claimed + 1
      → q.threads ≡ r.threads
      → q.releasing ≡ r.releasing
      → q.closing ≡ r.closing
      → Started r (after_init vm i q)
  unfolding after_init close release
  after_init_lem (true, flag, b) r q (inl h) run ini op cl th re co =
      started refl (sym ini ∙ h.2) h.1 op cl (omega (arith, th)) re co
  after_init_lem (true, flag, b) r q (inr h) run ini op cl th re co = cc
  after_init_lem (false, flag, b) r q (inl h) run ini op cl th re co = cc
  after_init_lem (false, flag, b) r q (inr h) run ini op cl th re co =
      refused run (h.1 ∙ ini) (omega (arith, op)) (omega (arith, cl)) th re co

  open_interface_lem :
      (a : Answers) (listener : Ref) (i : Interface) (r : Reader W)
      → Started r (open_interface vm a listener i r)
  unfolding open_interface close configure
  open_interface_lem a listener i r = elim (Bool-cases a.opens) [
    | inr shut ↦ rw shut (nothing_held r)
    | inl opens ↦ elim (Bool-cases a.claims) [
      | inr taken ↦ rw (opens, taken) (refused refl refl (omega arith) refl refl refl refl)
      | inl claims ↦
          rw (opens, claims)
            (after_init_lem
              (monitor_init vm a.allocated_ctx a.allocated_parser listener r.initialized r.bridge) r
              _
              (monitor_init_flag a.allocated_ctx a.allocated_parser r.initialized listener r.bridge)
              refl refl refl refl refl refl refl)
    ]
  ]

  with_interface_lem :
      (a : Answers) (listener : Ref) (i : Option Interface) (r : Reader W)
      → Started r (with_interface vm a listener i r)
  unfolding with_interface open_interface
  with_interface_lem a listener none r = nothing_held r
  with_interface_lem a listener (some i) r = by_endpoints (both_endpoints i.endpoints)
    where
      by_endpoints :
          (e : Option (Endpoint × Endpoint))
          → Started r (elim e [ none ↦ (false, r) | some x ↦ open_interface vm a listener i r ])
      by_endpoints none = nothing_held r
      by_endpoints (some e) = open_interface_lem a listener i r

  with_device_lem :
      (a : Answers) (listener : Ref) (d : Option Device) (r : Reader W)
      → Started r (with_device vm a listener d r)
  unfolding with_device
  with_device_lem a listener none r = nothing_held r
  with_device_lem a listener (some d) r = by_permission a.has_permission
    where
      by_permission :
          (b : Bool)
          → Started r (
              if not b
              then (false, r)
              else with_interface vm a listener (find_protocol_interface d.interfaces) r)
      by_permission true = with_interface_lem a listener (find_protocol_interface d.interfaces) r
      by_permission false = nothing_held r

  -- Whatever the USB service, the permissions and the memory, start either returns true, the reader then
  -- running and initialized, which it was not before, with one more connection open, one more
  -- interface claimed and one more thread; or it returns false, and whether the reader runs and is
  -- initialized, its connections, claims and threads are as before.
  pub usb_start_lem :
      (a : Answers) (listener : Ref) (r : Reader W) → Started r (usb_start vm a listener r)
  unfolding usb_start
  usb_start_lem a listener r = by_running r.running
    where
      by_running :
          (b : Bool)
          → Started r
              (if b then (false, r) else with_device vm a listener (find_dji_device a.devices) r)
      by_running true = nothing_held r
      by_running false = with_device_lem a listener (find_dji_device a.devices) r

  duss_open_lem :
      (a : Answers) (listener : Ref) (r : Reader W) → Started r (duss_open vm a listener r)
  unfolding duss_open close
  duss_open_lem a listener r = elim (Bool-cases a.opens) [
    | inr shut ↦ rw shut (nothing_held r)
    | inl opens ↦ elim (Bool-cases a.claims) [
      | inr taken ↦ rw (opens, taken) (refused refl refl (omega arith) refl refl refl refl)
      | inl claims ↦
          rw (opens, claims)
            (after_init_lem
              (monitor_init vm a.allocated_ctx a.allocated_parser listener r.initialized r.bridge) r
              _
              (monitor_init_flag a.allocated_ctx a.allocated_parser r.initialized listener r.bridge)
              refl refl refl refl refl refl refl)
    ]
  ]

  duss_with_interface_lem :
      (a : Answers) (listener : Ref) (i : Option Interface) (r : Reader W)
      → Started r (duss_with_interface vm a listener i r)
  unfolding duss_with_interface
  duss_with_interface_lem a listener none r = nothing_held r
  duss_with_interface_lem a listener (some i) r = by_tests a.has_permission (has_bulk_in (some i))
    where
      by_tests :
          (b c : Bool)
          → Started r
              (if not b then (false, r) else if c then duss_open vm a listener r else (false, r))
      by_tests true true = duss_open_lem a listener r
      by_tests true false = nothing_held r
      by_tests false c = nothing_held r

  duss_with_device_lem :
      (a : Answers) (listener : Ref) (d : Option Device) (r : Reader W)
      → Started r (duss_with_device vm a listener d r)
  unfolding duss_with_device
  duss_with_device_lem a listener none r = nothing_held r
  duss_with_device_lem a listener (some d) r =
      duss_with_interface_lem a listener (interface_at duss_interface_index d.interfaces) r

  -- The same of DussStreamReader.
  pub duss_start_lem :
      (a : Answers) (listener : Ref) (r : Reader W) → Started r (duss_start vm a listener r)
  unfolding duss_start
  duss_start_lem a listener r = by_running r.running
    where
      by_running :
          (b : Bool)
          → Started r (
              if b
              then (false, r)
              else duss_with_device vm a listener (find_dji_device a.devices) r)
      by_running true = nothing_held r
      by_running false = duss_with_device_lem a listener (find_dji_device a.devices) r
