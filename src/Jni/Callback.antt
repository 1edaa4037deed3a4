-- ===== src/Jni/Callback.antt =====
-- `jni_rc_callback`: whether the listener is called, and what is left as it was.
use rc_monitor.Base.{
  ℕ, ◌≡◌, refl, sym, ap, ◌∙◌, List, [], ◌∷◌, ◌++◌, append-nil, append_assoc, Option, none, some,
  Bool, true, false, Bool-cases, ◌⊎◌, inl, inr,
}
use rc_monitor.State.{RcState}
use rc_monitor.Jni.{Context, call_listener, call_attached, call_by_status, callback, callbacks}
use rc_monitor.Jni.Args.{JavaValue, java_args}
use rc_monitor.Jni.Vm.{Machine, Ref, View, Documented, Status, ok, detached, failed}

-- A view with one more call received, and no exception pending.
abbrev pub with_call : Ref → Ref → RcState → View → View
with_call r mid s v = record v {
  received = v.received ++ ((r, mid, java_args s) ∷ []);
  pending = false;
}

-- What a callback can do to the view: nothing, or one call of the listener.
abbrev pub Called : Context → RcState → View → View → Type 0
Called c s v v' =
    (v' ≡ v) ⊎ ((r : Ref) × (c.listener_ref ≡ some r) × (v' ≡ with_call r c.on_state_mid s v))

-- What no callback changes.
pub record Kept (v v' : View) : Type 0 where
  pub attached : v'.attached ≡ v.attached
  pub globals : v'.globals ≡ v.globals
  pub copies : v'.copies ≡ v.copies

Called-Kept : (c : Context) (s : RcState) (v v' : View) → Called c s v v' → Kept v v'
Called-Kept c s v v' (inl e) = record { attached = cc; globals = cc; copies = cc }
Called-Kept c s v v' (inr (r, l, e)) = record { attached = cc; globals = cc; copies = cc }

-- The calls that a list of states leads to.
abbrev pub calls_of : Ref → Ref → List RcState → List (Ref × Ref × List JavaValue)
calls_of r mid [] = []
calls_of r mid (s ∷ ss) = (r, mid, java_args s) ∷ calls_of r mid ss

module _ {W : Type 0} (vm : Machine W) (see : W → View) (contents : Ref → W → List ℕ)
    (doc : Documented vm see contents) where
  call_listener_lem :
      (r mid : Ref) (s : RcState) (w : W)
      → see (call_listener vm r mid s w) ≡ with_call r mid s (see w)
  unfolding call_listener
  call_listener_lem r mid s w =
      let w2 = vm.call_void_method r mid (java_args s) w in
      elim (Bool-cases (vm.exception_check w2)) [
        | inl thrown ↦ rw thrown (
            cc (
              doc.call_lem r mid (java_args s) w,
              doc.describe_lem w2,
              doc.clear_lem (vm.exception_describe w2),
            ))
        | inr none_thrown ↦
            rw none_thrown (cc (doc.call_lem r mid (java_args s) w, doc.check_lem w2))
      ]

  -- Whether a call gets through: the thread is attached, or can be.
  abbrev pub Reaches : W → Type 0
  Reaches w = (vm.get_env w ≡ ok) ⊎ ((vm.get_env w ≡ detached) × ((vm.attach w).0 ≡ true))

  call_attached_lem :
      (r mid : Ref) (s : RcState) (w : W) (a : Bool × W)
      → a.0 ≡ true
      → (see w).attached ≡ false
      → see a.1 ≡ record (see w) { attached = true }
      → see (call_attached vm r mid s a) ≡ with_call r mid s (see w)
  unfolding call_attached
  call_attached_lem r mid s w (true, w2) e was now =
      cc (call_listener_lem r mid s w2, doc.detach_lem (call_listener vm r mid s w2))
  call_attached_lem r mid s w (false, w2) e was now = cc

  -- With a listener that the call reaches, the listener has one call more, with the state's arguments.
  reached :
      (r mid : Ref) (s : RcState) (w : W)
      → Reaches w
      → see (call_by_status vm (vm.get_env w) r mid s w) ≡ with_call r mid s (see w)
  unfolding call_by_status
  reached r mid s w (inl e) = rw e (call_listener_lem r mid s w)
  reached r mid s w (inr (e, a)) = rw e (
      call_attached_lem r mid s w (vm.attach w) a (doc.get_env-detached w e)
        (doc.attach_succeeds w a))

  not_attached :
      (r mid : Ref) (s : RcState) (a : Bool × W) → a.0 ≡ false → call_attached vm r mid s a ≡ a.1
  unfolding call_attached
  not_attached r mid s (true, w) e = cc
  not_attached r mid s (false, w) e = refl

  by_status :
      (r mid : Ref) (s : RcState) (w : W) (t : Status)
      → vm.get_env w ≡ t
      → (see (call_by_status vm t r mid s w) ≡ see w)
        ⊎ (see (call_by_status vm t r mid s w) ≡ with_call r mid s (see w))
  unfolding call_by_status
  by_status r mid s w ok e = inr (call_listener_lem r mid s w)
  by_status r mid s w failed e = inl refl
  by_status r mid s w detached e = elim (Bool-cases (vm.attach w).0) [
    | inl t ↦ inr (
        call_attached_lem r mid s w (vm.attach w) t (doc.get_env-detached w e)
          (doc.attach_succeeds w t))
    | inr f ↦ inl (ap see (not_attached r mid s (vm.attach w) f) ∙ doc.attach_fails w f)
  ]

  with_listener :
      (c : Context) (s : RcState) (w : W) (l : Option Ref)
      → c.listener_ref ≡ l
      → Called c s (see w) (
          see
            (elim l [ none ↦ w | some r ↦ call_by_status vm (vm.get_env w) r c.on_state_mid s w ]))
  with_listener c s w none e = inl refl
  with_listener c s w (some r) e = elim (by_status r c.on_state_mid s w (vm.get_env w) refl) [
    | inl same ↦ inl same
    | inr called ↦ inr (r, e, called)
  ]

  -- `jni_rc_callback` calls the listener once with the state's arguments and leaves no exception
  -- pending, or it does nothing; either way the thread is attached afterwards exactly if it was before,
  -- and no reference or array is taken or given back.
  pub callback_lem :
      (c : Context) (s : RcState) (w : W) → Called c s (see w) (see (callback vm (some c) s w))
  unfolding callback
  callback_lem c s w = with_listener c s w c.listener_ref refl

  -- It calls the listener if there is one, and the thread is attached or can be.
  callback-with_call :
      (c : Context) (r : Ref) (s : RcState) (w : W)
      → c.listener_ref ≡ some r
      → Reaches w
      → see (callback vm (some c) s w) ≡ with_call r c.on_state_mid s (see w)
  unfolding callback
  callback-with_call c r s w e up = rw e (reached r c.on_state_mid s w up)

  pub callbacks-Kept :
      (c : Context) (ss : List RcState) (w : W) → Kept (see w) (see (callbacks vm (some c) ss w))
  unfolding callbacks
  callbacks-Kept c [] w = record { attached = refl; globals = refl; copies = refl }
  callbacks-Kept c (s ∷ ss) w =
      let first = Called-Kept c s (see w) (see (callback vm (some c) s w)) (callback_lem c s w) in
      let rest = callbacks-Kept c ss (callback vm (some c) s w) in
      record {
        attached = rest.attached ∙ first.attached;
        globals = rest.globals ∙ first.globals;
        copies = rest.copies ∙ first.copies;
      }

  pub callbacks_reach :
      (c : Context) (r : Ref) (ss : List RcState) (w : W)
      → c.listener_ref ≡ some r
      → ((w : W) → Reaches w)
      → (see (callbacks vm (some c) ss w)).received
        ≡ (see w).received ++ calls_of r c.on_state_mid ss
  unfolding callbacks
  callbacks_reach c r [] w e up = sym (append-nil (see w).received)
  callbacks_reach c r (s ∷ ss) w e up =
      callbacks_reach c r ss (callback vm (some c) s w) e up
      ∙ ap (λ v. v.received ++ calls_of r c.on_state_mid ss) (callback-with_call c r s w e (up w))
      ∙ append_assoc (see w).received ((r, c.on_state_mid, java_args s) ∷ [])
          (calls_of r c.on_state_mid ss)
