-- ===== src/Readers/Usb.antt =====
-- UsbRcReader.java, and RcMonitor.findDjiDevice: the choice of a device and of its interface, the start
-- with what it opens and claims, and the read loop. What the USB service answers, and the clock, are
-- arguments.
pub mod Choice
pub mod Held
pub mod Balance
pub mod Poll
pub mod Silence
mod Tests
use rc_monitor.Base.{
  ℕ, suc, ◌+◌, ◌-◌, List, [], ◌∷◌, ◌++◌, Option, none, some, Bool, true, false, not, ◌&&◌, ◌||◌,
  ltb, ◌==◌, if◌then◌else◌,
}
use rc_monitor.Jni.{Bridge}
use rc_monitor.Jni.Vm.{Machine, Ref}
use rc_monitor.Jni.Monitor.{monitor_init, monitor_destroy}

-- `DJI_USB_VID` and the product ids.
abbrev pub dji_usb_vid : ℕ
dji_usb_vid = 0x2CA3

abbrev pub dji_usb_pid_init : ℕ
dji_usb_pid_init = 0x0040

abbrev pub dji_usb_pid_active : ℕ
dji_usb_pid_active = 0x1020

abbrev pub dji_usb_pid_internal : ℕ
dji_usb_pid_internal = 0x001F

-- `USB_DIR_IN` and `USB_DIR_OUT`
pub data Direction : Type 0 where
  dir_in dir_out : Direction

-- What the reader asks of an endpoint, an interface and a device.
pub record Endpoint : Type 0 where
  pub bulk : Bool
  pub direction : Direction

pub record Interface : Type 0 where
  pub id : ℕ
  pub endpoints : List Endpoint

pub record Device : Type 0 where
  pub vendor : ℕ
  pub product : ℕ
  pub interfaces : List Interface

abbrev pub same_direction : Direction → Direction → Bool
same_direction dir_in dir_in = true
same_direction dir_in dir_out = false
same_direction dir_out dir_in = false
same_direction dir_out dir_out = true

abbrev pub is_internal : Device → Bool
is_internal d = (d.vendor == dji_usb_vid) && (d.product == dji_usb_pid_internal)

abbrev pub is_external : Device → Bool
is_external d =
    (d.vendor == dji_usb_vid)
    && ((d.product == dji_usb_pid_active) || (d.product == dji_usb_pid_init))

-- The loop of `findDjiDevice` with its `fallback`.
unfoldable pub find_from : List Device → Option Device → Option Device
find_from [] fallback = fallback
find_from (d ∷ ds) fallback =
    let rest = find_from ds (if is_external d then some d else fallback) in
    if is_internal d then some d else rest

-- `findDjiDevice`: none is no `usbManager`.
unfoldable pub find_dji_device : Option (List Device) → Option Device
find_dji_device none = none
find_dji_device (some ds) = find_from ds none

-- The inner loop of `findProtocolInterface`: whether a bulk endpoint in the direction was seen.
unfoldable pub has_bulk : Direction → List Endpoint → Bool
has_bulk dir [] = false
has_bulk dir (e ∷ es) = (e.bulk && same_direction e.direction dir) || has_bulk dir es

unfoldable pub find_protocol_interface : List Interface → Option Interface
find_protocol_interface [] = none
find_protocol_interface (i ∷ is) =
    let rest = find_protocol_interface is in
    if has_bulk dir_in i.endpoints && has_bulk dir_out i.endpoints then some i else rest

unfoldable pub find_bulk_endpoint : Direction → List Endpoint → Option Endpoint
find_bulk_endpoint dir [] = none
find_bulk_endpoint dir (e ∷ es) =
    let rest = find_bulk_endpoint dir es in
    if e.bulk && same_direction e.direction dir then some e else rest

-- `setLineCoding` and `setControlLineState`, to the interface with the id. Their failure is only logged.
pub data Control : Type 0 where
  line_coding : List ℕ → ℕ → Control
  control_line_state : ℕ → ℕ → Control

-- The reader's fields, and what it holds of the USB service: the connections that are open and the
-- claims of interfaces; the threads that have not destroyed the monitor, those that have and are yet to
-- release their interface, and those that have but their connection to close; and the control transfers
-- made.
pub record Reader (W : Type 0) : Type 0 where
  pub running : Bool
  pub initialized : Bool
  pub bridge : Bridge W
  pub opened : ℕ
  pub claimed : ℕ
  pub threads : ℕ
  pub releasing : ℕ
  pub closing : ℕ
  pub controls : List Control

-- What the USB service and `calloc` answer during a call of `start`.
pub record Answers : Type 0 where
  pub devices : Option (List Device)
  pub has_permission : Bool
  pub opens : Bool
  pub claims : Bool
  pub allocated_ctx : Bool
  pub allocated_parser : Bool

unfoldable pub close : {W : Type 0} → Reader W → Reader W
close r = record r { opened = r.opened - 1 }

unfoldable pub release : {W : Type 0} → Reader W → Reader W
release r = record r { claimed = r.claimed - 1 }

-- CDC ACM: 115200 baud, 8 data bits, no parity, 1 stop bit; DTR and RTS.
unfoldable pub configure : {W : Type 0} → ℕ → Reader W → Reader W
configure n r = record r {
  controls =
      r.controls
      ++ (line_coding (0x00 ∷ 0xC2 ∷ 0x01 ∷ 0x00 ∷ 0 ∷ 0 ∷ 8 ∷ []) n ∷ control_line_state 3 n ∷ []);
}

-- The two endpoints, or none where one of them is missing.
unfoldable pub both_endpoints : List Endpoint → Option (Endpoint × Endpoint)
both_endpoints es = elim (find_bulk_endpoint dir_in es) [
  | none ↦ none
  | some bulk_in ↦ elim (find_bulk_endpoint dir_out es) [
    | none ↦ none
    | some bulk_out ↦ some (bulk_in, bulk_out)
  ]
]

-- `stop`, without the wait for the thread.
unfoldable pub usb_stop : {W : Type 0} → Reader W → Reader W
usb_stop r = record r { running = false }

module _ {W : Type 0} (vm : Machine W) where
  -- What `monitor.init` returned decides.
  unfoldable pub after_init : Bool × Bool × Bridge W → Reader W → Bool × Reader W
  after_init (true, flag, b) r =
      (true, record r { running = true; initialized = flag; bridge = b; threads = r.threads + 1 })
  after_init (false, flag, b) r =
      (false, close (release (record r { initialized = flag; bridge = b })))

  -- From `openDevice` on.
  unfoldable pub open_interface : Answers → Ref → Interface → Reader W → Bool × Reader W
  open_interface a listener i r =
      let r1 = record r { opened = r.opened + 1 } in
      let r2 = configure i.id (record r1 { claimed = r1.claimed + 1 }) in
      if not a.opens
      then (false, r)
      else if not a.claims
      then (false, close r1)
      else after_init
          (monitor_init vm a.allocated_ctx a.allocated_parser listener r2.initialized r2.bridge) r2

  -- From `findProtocolInterface` on.
  unfoldable pub with_interface : Answers → Ref → Option Interface → Reader W → Bool × Reader W
  with_interface a listener none r = (false, r)
  with_interface a listener (some i) r = elim (both_endpoints i.endpoints) [
    | none ↦ (false, r)
    | some e ↦ open_interface a listener i r
  ]

  unfoldable pub with_device : Answers → Ref → Option Device → Reader W → Bool × Reader W
  with_device a listener none r = (false, r)
  with_device a listener (some d) r =
      if not a.has_permission
      then (false, r)
      else with_interface a listener (find_protocol_interface d.interfaces) r

  -- `start`; its thread runs the loop of `Poll`, and then the three steps below.
  unfoldable pub usb_start : Answers → Ref → Reader W → Bool × Reader W
  usb_start a listener r =
      if r.running then (false, r) else with_device a listener (find_dji_device a.devices) r

  -- What a thread does behind its loop, in three steps: `monitor.destroy()`, `releaseInterface`, `close`.
  unfoldable pub thread_destroy : Reader W → Reader W
  thread_destroy r =
      let (flag, b) = monitor_destroy vm r.initialized r.bridge in
      record r {
        initialized = flag;
        bridge = b;
        threads = r.threads - 1;
        releasing = r.releasing + 1;
      }

-- Of the thread's own connection, whatever the reader has started since.
unfoldable pub thread_release : {W : Type 0} → Reader W → Reader W
thread_release r = release (record r { releasing = r.releasing - 1; closing = r.closing + 1 })

unfoldable pub thread_close : {W : Type 0} → Reader W → Reader W
thread_close r = close (record r { closing = r.closing - 1 })
