-- ===== src/Readers/Local/Tests.antt =====
-- A start and a stop, the read loop, and a start that falls into the end of a thread.
use rc_monitor.Base.{◌≡◌, refl, [], ◌∷◌, none, Bool, true, false}
use rc_monitor.Parser.{create, fresh}
use rc_monitor.Jni.{
  init_once, init_class, init_method, init_context, init_parser, native_init, destroy_context,
  destroy_listener, native_destroy,
}
use rc_monitor.Jni.Java.{Java, java, bytes_of, set_array, status_of}
use rc_monitor.Jni.Monitor.{monitor_init, monitor_destroy}
use rc_monitor.Jni.Owned.{unset}
use rc_monitor.Readers.Usb.Poll.{hand_over}
use rc_monitor.Readers.Local.{
  LocalReader, has, without, new_socket, close_socket, close_active, after_connect,
  after_local_init, got, end_of_stream, local_start, local_stop, local_destroy, local_leave,
  local_end, local_loop,
}
use rc_monitor.Readers.Local.Sound.{
  IsSound, at_rest, LocalReach, begun, followed, local_start_call, local_stop_call, thread_ended,
  local_reader-IsSound,
}

abbrev idle_local : LocalReader Java
idle_local = record {
  running = false;
  initialized = false;
  bridge = unset (record {
    view = record { attached = true; pending = false; globals = 4; copies = 0; received = [] };
    arrays = λ r. [];
  });
  active_socket = none;
  threads = [];
  opened = [];
  next_socket = 0;
}

abbrev started_local : LocalReader Java
started_local = (local_start java true true true 2 idle_local).1

abbrev ended_local : LocalReader Java
ended_local = local_end java 0 (local_stop started_local)

ended_local-Reach : LocalReach java idle_local ended_local
unfolding local_start local_destroy local_stop local_leave local_end has close_active
    after_local_init monitor_init native_init init_once unset init_class java init_method
    init_context init_parser create after_connect close_socket bytes_of set_array status_of
    monitor_destroy destroy_context destroy_listener native_destroy fresh new_socket without
ended_local-Reach =
    followed
      (followed (followed begun (local_start_call true true true 2 refl)) (local_stop_call refl))
      (thread_ended 0 refl refl)

local_reader-IsSound_example : IsSound ended_local
local_reader-IsSound_example =
    local_reader-IsSound java idle_local ended_local (at_rest refl refl refl refl refl)
      ended_local-Reach

local_loop-end :
    local_loop (got (1 ∷ []) ∷ got [] ∷ got (2 ∷ []) ∷ end_of_stream ∷ got (3 ∷ []) ∷ [])
    ≡ hand_over (1 ∷ []) ∷ hand_over (2 ∷ []) ∷ []
unfolding local_loop
local_loop-end = refl

-- Another start between `monitor.destroy()` and the rest of `finally`: it succeeds, and then the old
-- thread clears what it set, so that a stop does not close the new thread's socket.
abbrev second_start : Bool × LocalReader Java
second_start = local_start java true true true 2 (local_destroy java (local_stop started_local))

abbrev overtaken : LocalReader Java
overtaken = local_stop (local_leave 0 second_start.1)

start-overtaken :
    (second_start.0 ≡ true) × (overtaken.threads ≡ 1 ∷ []) × (overtaken.opened ≡ 1 ∷ [])
unfolding local_start local_destroy local_stop local_leave local_end has close_active
    after_local_init monitor_init native_init init_once unset init_class java init_method
    init_context init_parser create after_connect close_socket bytes_of set_array status_of
    monitor_destroy destroy_context destroy_listener native_destroy fresh new_socket without
start-overtaken = (refl, refl, refl)
