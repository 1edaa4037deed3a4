-- ===== src/Readers/Local.antt =====
-- LocalSocketReader.java: a reader of a Unix domain socket, with its start, its stop, its read loop and
-- the end of its thread. Sockets are numbered in the order in which they are made.
pub mod Sound
mod Tests
use rc_monitor.Base.{
  ℕ, ◌+◌, List, [], ◌∷◌, Option, none, some, Bool, true, false, ◌==◌, ◌||◌, if◌then◌else◌,
}
use rc_monitor.Jni.{Bridge}
use rc_monitor.Jni.Vm.{Machine, Ref}
use rc_monitor.Jni.Monitor.{monitor_init, monitor_destroy}
use rc_monitor.Readers.Usb.Poll.{Act, hand_over}

-- The reader's fields, and the sockets that are open, those of threads that have not ended, and the
-- number of the next one.
pub record LocalReader (W : Type 0) : Type 0 where
  pub running : Bool
  pub initialized : Bool
  pub bridge : Bridge W
  pub active_socket : Option ℕ
  pub threads : List ℕ
  pub opened : List ℕ
  pub next_socket : ℕ

unfoldable pub has : ℕ → List ℕ → Bool
has s [] = false
has s (t ∷ ts) = (s == t) || has s ts

unfoldable pub without : ℕ → List ℕ → List ℕ
without s [] = []
without s (t ∷ ts) = let rest = without s ts in if s == t then rest else t ∷ rest

-- What `isAvailable` asks: whether the path exists, and whether a probe, closed at once, connects.
unfoldable pub local_is_available : Bool → Bool → Bool
local_is_available exists connects = if exists then connects else false

-- `new LocalSocket()`
unfoldable pub new_socket : {W : Type 0} → LocalReader W → LocalReader W
new_socket r = record r { opened = r.next_socket ∷ r.opened; next_socket = r.next_socket + 1 }

-- `close`, which does nothing to a closed socket.
unfoldable pub close_socket : {W : Type 0} → ℕ → LocalReader W → LocalReader W
close_socket s r = record r { opened = without s r.opened }

unfoldable pub close_active : {W : Type 0} → Option ℕ → LocalReader W → LocalReader W
close_active none r = r
close_active (some s) r = close_socket s r

-- `stop`, without the wait for the thread.
unfoldable pub local_stop : {W : Type 0} → LocalReader W → LocalReader W
local_stop r = close_active r.active_socket (record r { running = false })

-- What a read yields: bytes, no byte being n = 0; the end of the stream; or an exception.
pub data SocketRead : Type 0 where
  got : List ℕ → SocketRead
  end_of_stream thrown : SocketRead

-- The read loop, up to where `running` is seen to be false.
unfoldable pub local_loop : List SocketRead → List Act
local_loop [] = []
local_loop (got [] ∷ rs) = local_loop rs
local_loop (got (b ∷ bytes) ∷ rs) = hand_over (b ∷ bytes) ∷ local_loop rs
local_loop (end_of_stream ∷ rs) = []
local_loop (thrown ∷ rs) = []

-- What the thread does behind `monitor.destroy()`.
unfoldable pub local_leave : {W : Type 0} → ℕ → LocalReader W → LocalReader W
local_leave s r = record r {
  opened = without s r.opened;
  active_socket = none;
  running = false;
  threads = without s r.threads;
}

module _ {W : Type 0} (vm : Machine W) where
  -- `monitor.destroy()`
  unfoldable pub local_destroy : LocalReader W → LocalReader W
  local_destroy r =
      let (flag, b) = monitor_destroy vm r.initialized r.bridge in
      record r { initialized = flag; bridge = b }

  -- `finally`, in the thread of a socket.
  unfoldable pub local_end : ℕ → LocalReader W → LocalReader W
  local_end s r = local_leave s (local_destroy r)

  -- Whether `connect` and `setSoTimeout` returned decides.
  unfoldable pub after_connect : Bool → ℕ → LocalReader W → Bool × LocalReader W
  after_connect false s r = (false, close_socket s (local_destroy r))
  after_connect true s r =
      (true, record r { running = true; active_socket = some s; threads = s ∷ r.threads })

  -- What `monitor.init` returned decides.
  unfoldable pub after_local_init :
      Bool → Bool × Bool × Bridge W → LocalReader W → Bool × LocalReader W
  after_local_init connects (false, flag, b) r =
      (false, record r { initialized = flag; bridge = b })
  after_local_init connects (true, flag, b) r =
      after_connect connects r.next_socket
        (new_socket (record r { initialized = flag; bridge = b }))

  -- `start`
  unfoldable pub local_start : Bool → Bool → Bool → Ref → LocalReader W → Bool × LocalReader W
  local_start allocated_ctx allocated_parser connects listener r =
      if r.running
      then (false, r)
      else after_local_init connects
          (monitor_init vm allocated_ctx allocated_parser listener r.initialized r.bridge) r
