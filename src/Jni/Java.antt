-- ===== src/Jni/Java.antt =====
-- A Java machine in which every call succeeds, as an instance of what is assumed of JNI.
use rc_monitor.Base.{
  ℕ, ◌+◌, ◌-◌, ◌%◌, ◌≡◌, refl, sym, ap, ◌∙◌, List, [], ◌∷◌, ◌++◌, map, length, length-map,
  length-replicate, replicate, IsBytes, ap₂, some, Bool, true, false, arith, ◌==◌, if◌then◌else◌,
}
use rc_monitor.Jni.Vm.{Machine, Ref, View, Documented, Status, ok, detached, held}

-- The listener throws if it is reference 13. New arrays are reference 9.
pub record Java : Type 0 where
  pub view : View
  pub arrays : Ref → List ℕ

abbrev pub see : Java → View
see w = w.view

unfoldable pub bytes_of : Ref → Java → List ℕ
bytes_of a w = map (λ b. b % 256) (w.arrays a)

unfoldable pub set_array : Ref → List ℕ → Java → Java
set_array a bytes w = record w { arrays = λ r. if r == a then bytes else w.arrays r }

unfoldable pub status_of : Bool → Status
status_of true = ok
status_of false = detached

unfoldable pub java : Machine Java
unfolding bytes_of set_array status_of
java = record {
  get_env = λ w. status_of w.view.attached;
  attach = λ w. (true, record w { view = record w.view { attached = true } });
  detach = λ w. record w { view = record w.view { attached = false } };
  call_void_method = λ r m args w. record w {
    view = record w.view {
      received = w.view.received ++ ((r, m, args) ∷ []);
      pending = if r == 13 then true else w.view.pending;
    };
  };
  exception_check = λ w. w.view.pending;
  exception_describe = λ w. record w { view = record w.view { pending = false } };
  exception_clear = λ w. record w { view = record w.view { pending = false } };
  get_object_class = λ r w. (some 5, w);
  get_method_id = λ r w. (some 6, w);
  new_global_ref =
      λ r w. (some 7, record w { view = record w.view { globals = w.view.globals + 1 } });
  delete_global_ref =
      λ r w. record w { view = record w.view { globals = w.view.globals - held r } };
  array_length = λ a w. length (bytes_of a w);
  get_elements = λ a w.
      (some (bytes_of a w), record w { view = record w.view { copies = w.view.copies + 1 } });
  release_elements = λ a w. record w { view = record w.view { copies = w.view.copies - 1 } };
  new_byte_array = λ n w. (some 9, set_array 9 (replicate n 0) w);
  set_region = λ a bytes w. set_array a bytes w;
}

pub bytes_stay : (bytes : List ℕ) → IsBytes bytes → map (λ b. b % 256) bytes ≡ bytes
bytes_stay [] h = refl
bytes_stay (b ∷ bs) h = ap₂ (λ x xs. x ∷ xs) (omega (arith, h.0)) (bytes_stay bs h.1)

map-IsBytes : (bytes : List ℕ) → IsBytes (map (λ b. b % 256) bytes)
map-IsBytes [] = tt
map-IsBytes (b ∷ bs) = ((omega arith), map-IsBytes bs)

attached_status : (b : Bool) → status_of b ≡ ok → b ≡ true
unfolding status_of
attached_status true e = refl
attached_status false e = cc

detached_status : (b : Bool) → status_of b ≡ detached → b ≡ false
unfolding status_of
detached_status true e = cc
detached_status false e = refl

written : (a : Ref) (bytes : List ℕ) (w : Java) → (set_array a bytes w).arrays a ≡ bytes
unfolding set_array
written a bytes w = ground arith

new_length : (a n : ℕ) (w : Java) → 9 ≡ a → length (bytes_of a (set_array 9 (replicate n 0) w)) ≡ n
unfolding bytes_of
new_length a n w e =
    length-map ((set_array 9 (replicate n 0) w).arrays a) (λ b. b % 256)
    ∙ ap (λ r. length ((set_array 9 (replicate n 0) w).arrays r)) (sym e)
    ∙ ap length (written 9 (replicate n 0) w)
    ∙ length-replicate n 0

pub java-Documented : Documented java see bytes_of
unfolding java bytes_of
java-Documented = record {
  get_env-ok = λ w e. attached_status w.view.attached e;
  get_env-detached = λ w e. detached_status w.view.attached e;
  attach_succeeds = λ w e. refl;
  attach_fails = λ w e. cc;
  detach_lem = λ w. refl;
  call_lem = λ r m args w. refl;
  check_lem = λ w. refl;
  describe_lem = λ w. refl;
  clear_lem = λ w. refl;
  class_lem = λ r w. refl;
  method_lem = λ r w. refl;
  new_global_lem = λ r w. refl;
  delete_global_lem = λ r w. refl;
  length_lem = λ a w. refl;
  contents-IsBytes = λ a w. map-IsBytes (w.arrays a);
  elements_lem = λ a w. refl;
  elements-contents = λ a w e. cc;
  release_lem = λ a w. refl;
  new_array_lem = λ n w. refl;
  new_array-length = λ n w e. new_length _ n w cc;
  region_lem = λ a bytes w. refl;
  region-contents =
      λ a bytes w h e. ap (map (λ b. b % 256)) (written a bytes w) ∙ bytes_stay bytes h;
}
