-- ===== src/Readers/Usb/Balance.antt =====
-- What UsbRcReader and DussStreamReader hold of the USB service, and for how long.
use rc_monitor.Base.{◌+◌, ◌<◌, ◌≤◌, ◌≡◌, subst, refl, sym, ap, ◌∙◌, arith, Bool, true, false}
use rc_monitor.Jni.{Bridge}
use rc_monitor.Jni.Vm.{Machine, Ref}
use rc_monitor.Jni.Monitor.{monitor_destroy}
use rc_monitor.Jni.Monitor.Held.{num}
use rc_monitor.Readers.Usb.{
  Reader, Answers, close, release, usb_start, usb_stop, thread_destroy, thread_release,
  thread_close,
}
use rc_monitor.Readers.Usb.Held.{Started, started, refused, usb_start_lem, duss_start_lem}
use rc_monitor.Readers.Duss.{duss_start}

-- Which of the two readers.
pub data Kind : Type 0 where
  usb duss : Kind

abbrev pub start_of : {W : Type 0} → Kind → Machine W → Answers → Ref → Reader W → Bool × Reader W
start_of usb vm a listener r = usb_start vm a listener r
start_of duss vm a listener r = duss_start vm a listener r

module _ {W : Type 0} (vm : Machine W) where
  -- A call of `start` or `stop`, or one of the last three steps of a thread. A thread comes to the first
  -- of them when it has seen that the reader does not run; `start` does not change that before the
  -- thread takes it, since `init` refuses a monitor that is initialized.
  pub data Step (kind : Kind) (r q : Reader W) : Type 0 where
    start_call :
        (a : Answers) (listener : Ref) → q ≡ (start_of kind vm a listener r).1 → Step kind r q
    stop_call : q ≡ usb_stop r → Step kind r q
    destroyed : 0 < r.threads → r.running ≡ false → q ≡ thread_destroy vm r → Step kind r q
    released : 0 < r.releasing → q ≡ thread_release r → Step kind r q
    closed : 0 < r.closing → q ≡ thread_close r → Step kind r q

  pub data Reach (kind : Kind) (r : Reader W) : Reader W → Type 0 where
    here : Reach kind r r
    next : {q s : Reader W} → Reach kind r q → Step kind q s → Reach kind r s

  start_of_lem :
      (kind : Kind) (a : Answers) (listener : Ref) (r : Reader W)
      → Started r (start_of kind vm a listener r)
  start_of_lem usb a listener r = usb_start_lem vm a listener r
  start_of_lem duss a listener r = duss_start_lem vm a listener r

  -- While it is initialized the reader has one thread that has not destroyed the monitor, else none.
  -- The claims are those of this thread and of the threads yet to release theirs; the connections are
  -- those of all these and of the threads yet to close theirs. It does not run uninitialized.
  pub record IsBalanced (r : Reader W) : Type 0 where
    pub threads : r.threads ≡ num r.initialized
    pub claimed : r.claimed ≡ r.threads + r.releasing
    pub opened : r.opened ≡ r.threads + r.releasing + r.closing
    pub running : r.running ≡ true → r.initialized ≡ true

  start-IsBalanced :
      (r : Reader W) (x : Bool × Reader W) → Started r x → IsBalanced r → IsBalanced x.1
  start-IsBalanced r x (started run was now op cl th re co) v = record {
    threads = rw now (omega (arith, th, v.threads, ap num was));
    claimed = omega (arith, cl, th, re, v.claimed);
    opened = omega (arith, op, th, re, co, v.opened);
    running = λ e. now;
  }
  start-IsBalanced r x (refused run ini op cl th re co) v = record {
    threads = th ∙ v.threads ∙ ap num (sym ini);
    claimed = omega (arith, cl, th, re, v.claimed);
    opened = omega (arith, op, th, re, co, v.opened);
    running = λ e. ini ∙ v.running (sym run ∙ e);
  }

  pub monitor_destroy_flag : (flag : Bool) (b : Bridge W) → (monitor_destroy vm flag b).0 ≡ false
  unfolding monitor_destroy
  monitor_destroy_flag true b = refl
  monitor_destroy_flag false b = refl

  at_most_one : (flag : Bool) → num flag ≤ 1
  at_most_one true = omega arith
  at_most_one false = omega arith

  thread_destroy-IsBalanced :
      (r : Reader W)
      → 0 < r.threads
      → r.running ≡ false
      → IsBalanced r
      → IsBalanced (thread_destroy vm r)
  unfolding thread_destroy
  thread_destroy-IsBalanced r some_thread still v =
      let none_left : num (monitor_destroy vm r.initialized r.bridge).0 ≡ 0 =
        ap num (monitor_destroy_flag r.initialized r.bridge) in
      record {
        threads = omega (arith, v.threads, at_most_one r.initialized, none_left);
        claimed = omega (arith, v.claimed, some_thread);
        opened = omega (arith, v.opened, some_thread);
        running = λ e. cc;
      }

  thread_release-IsBalanced :
      (r : Reader W) → 0 < r.releasing → IsBalanced r → IsBalanced (thread_release r)
  unfolding thread_release release
  thread_release-IsBalanced r some_thread v = record {
    threads = v.threads;
    claimed = omega (arith, v.claimed, some_thread);
    opened = omega (arith, v.opened, some_thread);
    running = v.running;
  }

  thread_close-IsBalanced :
      (r : Reader W) → 0 < r.closing → IsBalanced r → IsBalanced (thread_close r)
  unfolding thread_close close
  thread_close-IsBalanced r some_thread v = record {
    threads = v.threads;
    claimed = v.claimed;
    opened = omega (arith, v.opened, some_thread);
    running = v.running;
  }

  step-IsBalanced : (kind : Kind) (r q : Reader W) → Step kind r q → IsBalanced r → IsBalanced q
  unfolding usb_stop
  step-IsBalanced kind r q (start_call a listener e) v =
      subst IsBalanced (sym e)
        (start-IsBalanced r (start_of kind vm a listener r) (start_of_lem kind a listener r) v)
  step-IsBalanced kind r q (stop_call e) v =
      subst IsBalanced (sym e)
        (record { threads = v.threads; claimed = v.claimed; opened = v.opened; running = λ e. cc })
  step-IsBalanced kind r q (destroyed some_thread still e) v =
      subst IsBalanced (sym e) (thread_destroy-IsBalanced r some_thread still v)
  step-IsBalanced kind r q (released some_thread e) v =
      subst IsBalanced (sym e) (thread_release-IsBalanced r some_thread v)
  step-IsBalanced kind r q (closed some_thread e) v =
      subst IsBalanced (sym e) (thread_close-IsBalanced r some_thread v)

  -- From a reader that holds nothing, or anything of which this holds, whatever the calls of start
  -- and stop of a UsbRcReader or a DussStreamReader, one after another, with whatever answers of the
  -- USB service, and however the three last steps of the threads (destroy, release, close) fall
  -- between them: while its monitor is initialized the reader has exactly one thread that has not
  -- destroyed it, else none; the claimed interfaces are as many as this thread and those yet to
  -- release theirs, and the open connections as many as all these and those yet to close theirs; and
  -- it does not run uninitialized.
  pub reader-IsBalanced :
      (kind : Kind) (r q : Reader W) → IsBalanced r → Reach kind r q → IsBalanced q
  reader-IsBalanced kind r q v here = v
  reader-IsBalanced kind r q v (next t s) =
      step-IsBalanced kind _ q s (reader-IsBalanced kind r _ v t)
