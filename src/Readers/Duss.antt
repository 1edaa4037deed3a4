-- ===== src/Readers/Duss.antt =====
-- DussStreamReader.java: a reader of one interface of the device, which needs no command to begin. It
-- holds what UsbRcReader holds, and its thread ends as that one's does.
use rc_monitor.Base.{
  ℕ, zero, suc, ◌+◌, List, [], ◌∷◌, Option, none, some, Bool, true, false, not, if◌then◌else◌,
}
use rc_monitor.Jni.Vm.{Machine, Ref}
use rc_monitor.Jni.Monitor.{monitor_init}
use rc_monitor.Readers.Usb.{
  Device, Interface, Reader, Answers, dir_in, find_bulk_endpoint, find_dji_device, close,
  after_init,
}
use rc_monitor.Readers.Usb.Poll.{Reading, received, silent, Act, hand_over}

-- `DUSS_INTERFACE_INDEX`
abbrev pub duss_interface_index : ℕ
duss_interface_index = 7

-- `getInterface(i)`, or none where `getInterfaceCount() <= i`.
unfoldable pub interface_at : ℕ → List Interface → Option Interface
interface_at i [] = none
interface_at zero (x ∷ xs) = some x
interface_at (suc i) (x ∷ xs) = interface_at i xs

unfoldable pub has_bulk_in : Option Interface → Bool
has_bulk_in none = false
has_bulk_in (some i) = elim (find_bulk_endpoint dir_in i.endpoints) [ none ↦ false | some e ↦ true ]

unfoldable pub duss_available_on : Option Device → Bool
duss_available_on none = false
duss_available_on (some d) = has_bulk_in (interface_at duss_interface_index d.interfaces)

-- `isAvailable`
unfoldable pub duss_is_available : Answers → Bool
duss_is_available a = duss_available_on (find_dji_device a.devices)

module _ {W : Type 0} (vm : Machine W) where
  -- From `openDevice` on.
  unfoldable pub duss_open : Answers → Ref → Reader W → Bool × Reader W
  duss_open a listener r =
      let r1 = record r { opened = r.opened + 1 } in
      let r2 = record r1 { claimed = r1.claimed + 1 } in
      if not a.opens
      then (false, r)
      else if not a.claims
      then (false, close r1)
      else after_init vm
          (monitor_init vm a.allocated_ctx a.allocated_parser listener r2.initialized r2.bridge) r2

  -- Behind `getInterfaceCount`.
  unfoldable pub duss_with_interface : Answers → Ref → Option Interface → Reader W → Bool × Reader W
  duss_with_interface a listener none r = (false, r)
  duss_with_interface a listener (some i) r =
      if not a.has_permission
      then (false, r)
      else if has_bulk_in (some i)
      then duss_open a listener r
      else (false, r)

  unfoldable pub duss_with_device : Answers → Ref → Option Device → Reader W → Bool × Reader W
  duss_with_device a listener none r = (false, r)
  duss_with_device a listener (some d) r =
      duss_with_interface a listener (interface_at duss_interface_index d.interfaces) r

  -- `start`
  unfoldable pub duss_start : Answers → Ref → Reader W → Bool × Reader W
  duss_start a listener r =
      if r.running then (false, r) else duss_with_device a listener (find_dji_device a.devices) r

-- The read loop.
unfoldable pub duss_loop : List Reading → List Act
duss_loop [] = []
duss_loop (received bytes now ∷ rs) = hand_over bytes ∷ duss_loop rs
duss_loop (silent now ∷ rs) = duss_loop rs
