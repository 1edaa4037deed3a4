-- ===== src/Readers/Local/Sound.antt =====
-- Which socket, thread and parser LocalSocketReader has after any calls of its methods.
use rc_monitor.Base.{
  ℕ, ◌≡◌, refl, sym, ap, subst, ◌∙◌, inl, inr, ◌⊎◌, [], ◌∷◌, none, some, Bool, true, false, ◌==◌,
  ==_iff, ◌||◌, if◌then◌else◌,
}
use rc_monitor.Jni.{Bridge}
use rc_monitor.Jni.Vm.{Machine, Ref}
use rc_monitor.Jni.Monitor.{monitor_init}
use rc_monitor.Readers.Usb.Held.{monitor_init_flag}
use rc_monitor.Readers.Usb.Balance.{monitor_destroy_flag}
use rc_monitor.Readers.Local.{
  LocalReader, has, without, new_socket, close_socket, close_active, local_stop, local_leave,
  local_destroy, local_end, after_connect, after_local_init, local_start,
}

-- The reader has nothing; or its thread reads from the active socket, the only one that is open; or it
-- was stopped, its socket is closed, and its thread has not ended yet.
pub data IsSound {W : Type 0} (r : LocalReader W) : Type 0 where
  at_rest :
      r.running ≡ false
      → r.initialized ≡ false
      → r.active_socket ≡ none
      → r.threads ≡ []
      → r.opened ≡ []
      → IsSound r
  reading :
      (s : ℕ)
      → r.running ≡ true
      → r.initialized ≡ true
      → r.active_socket ≡ some s
      → r.threads ≡ s ∷ []
      → r.opened ≡ s ∷ []
      → IsSound r
  stopping :
      (s : ℕ)
      → r.running ≡ false
      → r.initialized ≡ true
      → r.active_socket ≡ some s
      → r.threads ≡ s ∷ []
      → r.opened ≡ []
      → IsSound r

==_refl : (s : ℕ) → (s == s) ≡ true
==_refl s = (==_iff s s).1 refl

has-one : (s t : ℕ) → has s (t ∷ []) ≡ true → s ≡ t
unfolding has
has-one s t h = (==_iff s t).0 (first (s == t) h)
  where
    first : (b : Bool) → (b || false) ≡ true → b ≡ true
    first true e = refl
    first false e = e

without-one : (s : ℕ) → without s (s ∷ []) ≡ []
unfolding without
without-one s = rw (==_refl s) refl

module _ {W : Type 0} where
  local_stop-IsSound : (r : LocalReader W) → IsSound r → IsSound (local_stop r)
  unfolding local_stop close_active close_socket without
  local_stop-IsSound r (at_rest run ini act th op) = rw act (at_rest refl ini refl th op)
  local_stop-IsSound r (reading s run ini act th op) =
      rw act (stopping s refl ini refl th (ap (without s) op ∙ without-one s))
  local_stop-IsSound r (stopping s run ini act th op) =
      rw act (stopping s refl ini refl th (ap (without s) op))

module _ {W : Type 0} (vm : Machine W) where
  -- A call of `start` or `stop`, or the whole of `finally` in a thread that has not ended.
  pub data LocalStep (r q : LocalReader W) : Type 0 where
    local_start_call :
        (allocated_ctx allocated_parser connects : Bool) (listener : Ref)
        → q ≡ (local_start vm allocated_ctx allocated_parser connects listener r).1
        → LocalStep r q
    local_stop_call : q ≡ local_stop r → LocalStep r q
    thread_ended : (s : ℕ) → has s r.threads ≡ true → q ≡ local_end vm s r → LocalStep r q

  pub data LocalReach (r : LocalReader W) : LocalReader W → Type 0 where
    begun : LocalReach r r
    followed : {q s : LocalReader W} → LocalReach r q → LocalStep q s → LocalReach r s

  -- The thread of the only socket leaves nothing.
  leaves_nothing :
      (s : ℕ) (r : LocalReader W)
      → without s r.threads ≡ []
      → without s r.opened ≡ []
      → IsSound (local_end vm s r)
  unfolding local_end local_leave local_destroy
  leaves_nothing s r th op =
      at_rest refl (monitor_destroy_flag vm r.initialized r.bridge) refl th op

  local_end-IsSound :
      (s : ℕ) (r : LocalReader W) → has s r.threads ≡ true → IsSound r → IsSound (local_end vm s r)
  unfolding has without
  local_end-IsSound s r h (at_rest run ini act th op) =
      leaves_nothing s r (ap (without s) th) (ap (without s) op)
  local_end-IsSound s r h (reading t run ini act th op) =
      let same : s ≡ t = has-one s t (sym (ap (has s) th) ∙ h) in
      let gone : without s (t ∷ []) ≡ [] =
        subst (λ x. without s (x ∷ []) ≡ []) same (without-one s) in
      leaves_nothing s r (ap (without s) th ∙ gone) (ap (without s) op ∙ gone)
  local_end-IsSound s r h (stopping t run ini act th op) =
      let same : s ≡ t = has-one s t (sym (ap (has s) th) ∙ h) in
      let gone : without s (t ∷ []) ≡ [] =
        subst (λ x. without s (x ∷ []) ≡ []) same (without-one s) in
      leaves_nothing s r (ap (without s) th ∙ gone) (ap (without s) op)

  -- From a reader at rest, once its parser is set up.
  after_connect-IsSound :
      (connects : Bool) (s : ℕ) (r : LocalReader W)
      → r.running ≡ false
      → r.initialized ≡ true
      → r.active_socket ≡ none
      → r.threads ≡ []
      → r.opened ≡ s ∷ []
      → IsSound (after_connect vm connects s r).1
  unfolding after_connect close_socket local_destroy
  after_connect-IsSound true s r run ini act th op = reading s refl ini refl (ap (λ l. s ∷ l) th) op
  after_connect-IsSound false s r run ini act th op =
      at_rest run (monitor_destroy_flag vm r.initialized r.bridge) act th
        (ap (without s) op ∙ without-one s)

  after_local_init-IsSound :
      (connects : Bool) (i : Bool × Bool × Bridge W) (r : LocalReader W)
      → ((i.0 ≡ true) × (i.1 ≡ true) × (r.initialized ≡ false))
        ⊎ ((i.0 ≡ false) × (i.1 ≡ r.initialized))
      → r.running ≡ false
      → IsSound r
      → IsSound (after_local_init vm connects i r).1
  unfolding after_local_init new_socket
  after_local_init-IsSound connects (true, flag, b) r (inl h) still (at_rest run ini act th op) =
      after_connect-IsSound connects r.next_socket _ run h.1 act th (ap (λ l. r.next_socket ∷ l) op)
  after_local_init-IsSound connects (true, flag, b) r (inl h) still (reading s run ini act th op) =
      cc
  after_local_init-IsSound connects (true, flag, b) r (inl h) still (stopping s run ini act th op) =
      cc
  after_local_init-IsSound connects (true, flag, b) r (inr h) still v = cc
  after_local_init-IsSound connects (false, flag, b) r (inl h) still v = cc
  after_local_init-IsSound connects (false, flag, b) r (inr h) still (at_rest run ini act th op) =
      at_rest run (h.1 ∙ ini) act th op
  after_local_init-IsSound connects (false, flag, b) r (inr h) still (reading s run ini act th op) =
      reading s run (h.1 ∙ ini) act th op
  after_local_init-IsSound connects (false, flag, b) r (inr h) still
        (stopping s run ini act th op) =
      stopping s run (h.1 ∙ ini) act th op

  local_start-IsSound :
      (c p connects : Bool) (listener : Ref) (r : LocalReader W)
      → IsSound r
      → IsSound (local_start vm c p connects listener r).1
  unfolding local_start
  local_start-IsSound c p connects listener r v = by_running r.running refl
    where
      by_running :
          (b : Bool)
          → r.running ≡ b
          → IsSound
              (if b
                then (false, r)
                else after_local_init vm connects
                    (monitor_init vm c p listener r.initialized r.bridge)
                    r).1
      by_running true runs = v
      by_running false still =
          after_local_init-IsSound connects (monitor_init vm c p listener r.initialized r.bridge) r
            (monitor_init_flag vm c p r.initialized listener r.bridge) still v

  one_step-IsSound : (r q : LocalReader W) → LocalStep r q → IsSound r → IsSound q
  one_step-IsSound r q (local_start_call c p connects listener e) v =
      subst IsSound (sym e) (local_start-IsSound c p connects listener r v)
  one_step-IsSound r q (local_stop_call e) v = subst IsSound (sym e) (local_stop-IsSound r v)
  one_step-IsSound r q (thread_ended s h e) v = subst IsSound (sym e) (local_end-IsSound s r h v)

  -- Whatever the calls of start and stop of a LocalSocketReader, with whatever answers of the memory
  -- and the socket, and whenever its thread ends, where no start falls into the end of a thread: a
  -- reader that began with nothing has nothing; or its parser is set up and its one thread reads
  -- from the active socket, the only one open; or it was stopped, that socket is closed, and the
  -- thread and the parser are left.
  pub local_reader-IsSound : (r q : LocalReader W) → IsSound r → LocalReach r q → IsSound q
  local_reader-IsSound r q v begun = v
  local_reader-IsSound r q v (followed t s) = one_step-IsSound _ q s (local_reader-IsSound r _ v t)
