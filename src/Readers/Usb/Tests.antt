-- ===== src/Readers/Usb/Tests.antt =====
-- A service with three devices, a start and a stop, and rounds of the loop.
use rc_monitor.Base.{◌≡◌, refl, arith, List, [], ◌∷◌, ◌++◌, none, some, true, false}
use rc_monitor.Base.{All, IsBytes, length}
use rc_monitor.State.{RcState}
use rc_monitor.Parser.{Parser, create, fresh, feed}
use rc_monitor.Parser.Chunks.{replay, joined}
use rc_monitor.Jni.{
  init_once, init_class, init_method, init_context, init_parser, native_init, destroy_context,
  destroy_listener, native_destroy,
}
use rc_monitor.Jni.Java.{Java, java, bytes_of, set_array, status_of}
use rc_monitor.Jni.Monitor.{monitor_init, monitor_destroy}
use rc_monitor.Jni.Owned.{unset}
use rc_monitor.Readers.Usb.{
  with_device, find_from, with_interface, find_protocol_interface, has_bulk, both_endpoints,
  find_bulk_endpoint, open_interface, after_init, configure, close, release, Device, Interface,
  dir_in, dir_out, Reader, Answers, usb_start, usb_stop, thread_destroy, thread_release,
  find_dji_device,
}
use rc_monitor.Readers.Usb.Choice.{Chosen, find_dji_device_lem}
use rc_monitor.Readers.Usb.Balance.{
  usb, Reach, here, next, start_call, stop_call, destroyed, released, IsBalanced, reader-IsBalanced,
}
use rc_monitor.Readers.Usb.Poll.{
  Reading, received, silent, Act, send_enable, hand_over, fed_by, arrived, Numbered, usb_loop,
  send_poll, poll_rounds, poll_round, poll_at, poll_if, after_timeout, usb_loop_lem,
}
use rc_monitor.Readers.Usb.Silence.{Forward, Polls, usb_loop-Polls}

abbrev notify_only : Interface
notify_only = record { id = 0; endpoints = record { bulk = false; direction = dir_in } ∷ [] }

abbrev protocol : Interface
protocol = record {
  id = 1;
  endpoints =
      record { bulk = true; direction = dir_out } ∷ record { bulk = true; direction = dir_in } ∷ [];
}

abbrev devices : List Device
devices =
    record { vendor = 0x2CA3; product = 0x1020; interfaces = notify_only ∷ protocol ∷ [] }
    ∷ record { vendor = 1; product = 0x001F; interfaces = [] }
    ∷ record { vendor = 0x2CA3; product = 0x0040; interfaces = notify_only ∷ protocol ∷ [] }
    ∷ []

find_dji_device_lem_example : Chosen devices none (find_dji_device (some devices))
find_dji_device_lem_example = find_dji_device_lem devices

abbrev ready : Answers
ready = record {
  devices = some devices;
  has_permission = true;
  opens = true;
  claims = true;
  allocated_ctx = true;
  allocated_parser = true;
}

abbrev idle_reader : Reader Java
idle_reader = record {
  running = false;
  initialized = false;
  bridge = unset (record {
    view = record { attached = true; pending = false; globals = 4; copies = 0; received = [] };
    arrays = λ r. [];
  });
  opened = 0;
  claimed = 0;
  threads = 0;
  releasing = 0;
  closing = 0;
  controls = [];
}

idle_reader-IsBalanced : IsBalanced java idle_reader
idle_reader-IsBalanced = record { threads = refl; claimed = refl; opened = refl; running = λ e. cc }

-- A start and a stop, and a second start that comes when the first thread has destroyed the monitor, but
-- not yet released its interface.
abbrev destroyed_reader : Reader Java
destroyed_reader = thread_destroy java (usb_stop (usb_start java ready 2 idle_reader).1)

abbrev restarted_reader : Reader Java
restarted_reader = (usb_start java ready 2 destroyed_reader).1

restarted_reader-holds :
    (restarted_reader.threads ≡ 1) × (restarted_reader.claimed ≡ 2) × (restarted_reader.opened ≡ 2)
unfolding usb_start thread_destroy usb_stop thread_release with_device find_dji_device find_from
    with_interface find_protocol_interface has_bulk both_endpoints find_bulk_endpoint open_interface
    after_init monitor_init configure monitor_destroy native_init destroy_context destroy_listener
    native_destroy init_class init_context init_method init_once init_parser unset java create fresh
    close release bytes_of set_array status_of
restarted_reader-holds = (refl, refl, refl)

overlapping-Reach : Reach java usb idle_reader (thread_release restarted_reader)
unfolding usb_start thread_destroy usb_stop thread_release with_device find_dji_device find_from
    with_interface find_protocol_interface has_bulk both_endpoints find_bulk_endpoint open_interface
    after_init monitor_init configure monitor_destroy native_init destroy_context destroy_listener
    native_destroy init_class init_context init_method init_once init_parser unset java create fresh
    close release bytes_of set_array status_of
overlapping-Reach =
    next
      (next
        (next (next (next here (start_call ready 2 refl)) (stop_call refl))
          (destroyed (omega arith) refl refl))
        (start_call ready 2 refl))
      (released (omega arith) refl)

reader-IsBalanced_example : IsBalanced java (thread_release restarted_reader)
reader-IsBalanced_example =
    reader-IsBalanced java usb idle_reader (thread_release restarted_reader) idle_reader-IsBalanced
      overlapping-Reach

abbrev readings : List Reading
readings = received (0x55 ∷ 14 ∷ []) 1020 ∷ silent 1120 ∷ received (4 ∷ []) 1130 ∷ []

readings-IsBytes : All IsBytes (arrived readings)
unfolding arrived
readings-IsBytes = omega arith

usb_loop_lem_example :
    (acts : List Act) × (calls : List RcState) × (p : Parser) × (q : Parser) × (usb_loop 1000
        readings
      ≡ send_enable 1 ∷ acts)
    × (fed_by acts ≡ arrived readings)
    × Numbered 2 0 acts
    × (replay fresh (fed_by acts) ≡ some (calls, p))
    × (feed (some fresh) (some (joined (arrived readings))) ≡ some (length calls, calls, some q))
usb_loop_lem_example = usb_loop_lem 1000 readings readings-IsBytes

-- A silence of more than 2000 ms, a request, a read too soon for another, data, and silence again.
abbrev silences : List Reading
silences =
    readings
    ++ (silent 3200 ∷ silent 3240 ∷ received (1 ∷ []) 3250 ∷ silent 3350 ∷ silent 5300 ∷ [])

silences-Forward : Forward 1000 silences
silences-Forward = omega arith

silences-acts :
    usb_loop 1000 silences
    ≡ send_enable 1
      ∷ hand_over (0x55 ∷ 14 ∷ [])
      ∷ hand_over (4 ∷ [])
      ∷ send_poll 2 3200
      ∷ hand_over (1 ∷ [])
      ∷ send_poll 3 5300
      ∷ []
unfolding usb_loop poll_rounds poll_round poll_at poll_if after_timeout
silences-acts = refl

usb_loop-Polls_example :
    (acts : List Act) × (usb_loop 1000 silences ≡ send_enable 1 ∷ acts)
    × Polls 1000 0 2 silences acts
usb_loop-Polls_example = usb_loop-Polls 1000 silences silences-Forward
