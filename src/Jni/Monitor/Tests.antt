-- ===== src/Jni/Monitor/Tests.antt =====
-- Two objects, of which the first is initialized.
use rc_monitor.Base.{◌≡◌, ◌≤◌, refl, [], ◌∷◌, true, false}
use rc_monitor.Jni.Vm.{held}
use rc_monitor.Jni.Owned.{unset}
use rc_monitor.Jni.Java.{Java, java}
use rc_monitor.Jni.Monitor.{Monitors, monitor_init, Reach, here, next, new_object, init_call}
use rc_monitor.Jni.Monitor.Count.{count, count_initialized}

abbrev world : Java
world = record {
  view = record { attached = true; pending = false; globals = 4; copies = 0; received = [] };
  arrays = λ r. [];
}

abbrev none_made : Monitors Java
none_made = record { flags = []; bridge = unset world }

abbrev one_made : Monitors Java
one_made = record none_made { flags = false ∷ [] }

abbrev two_made : Monitors Java
two_made = record none_made { flags = false ∷ false ∷ [] }

abbrev first_ready : Monitors Java
first_ready = record {
  flags = (monitor_init java true true 2 false two_made.bridge).1 ∷ false ∷ [];
  bridge = (monitor_init java true true 2 false two_made.bridge).2;
}

first_ready-Reach : Reach java none_made first_ready
first_ready-Reach =
    next {m1 = two_made}
      (next {m1 = one_made} (next {m1 = none_made} here (new_object refl refl))
        (new_object refl refl))
      (init_call true true 2 [] (false ∷ []) false refl refl refl)

count_initialized_example :
    (count first_ready.flags ≡ held first_ready.bridge.ctx) × (count first_ready.flags ≤ 1)
count_initialized_example = count_initialized java world first_ready first_ready-Reach
