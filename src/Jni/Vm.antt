-- ===== src/Jni/Vm.antt =====
-- The functions of JNI that src/rc_monitor_jni.c calls, over the states `W` of the Java machine, and
-- what the JNI specification says of them. JNI is not part of the repository.
use rc_monitor.Jni.Args.{JavaValue}
use rc_monitor.Base.{
  ℕ, ◌+◌, ◌-◌, ◌≡◌, IsBytes, List, [], ◌∷◌, ◌++◌, length, Option, none, some, Bool, true, false,
}

-- A reference of Java or the id of a method: not NULL.
abbrev pub Ref : Type 0
Ref = ℕ

-- What `GetEnv` returns: `JNI_OK`, `JNI_EDETACHED`, or another error.
pub data Status : Type 0 where
  ok detached failed : Status

pub record Machine (W : Type 0) : Type 0 where
  pub get_env : W → Status
  -- `AttachCurrentThread`, and whether it returned `JNI_OK`
  pub attach : W → Bool × W
  pub detach : W → W
  pub call_void_method : Ref → Ref → List JavaValue → W → W
  pub exception_check : W → Bool
  pub exception_describe : W → W
  pub exception_clear : W → W
  pub get_object_class : Ref → W → Option Ref × W
  -- `GetMethodID` of "onRcState"
  pub get_method_id : Ref → W → Option Ref × W
  pub new_global_ref : Ref → W → Option Ref × W
  -- `DeleteGlobalRef`, of NULL too
  pub delete_global_ref : Option Ref → W → W
  pub array_length : Ref → W → ℕ
  -- `GetByteArrayElements`, with the bytes read as unsigned
  pub get_elements : Ref → W → Option (List ℕ) × W
  -- `ReleaseByteArrayElements` with `JNI_ABORT`
  pub release_elements : Ref → W → W
  pub new_byte_array : ℕ → W → Option Ref × W
  -- `SetByteArrayRegion` from 0 on
  pub set_region : Ref → List ℕ → W → W

-- What of the Java machine the specification speaks about: whether the thread is attached, whether an
-- exception is pending, how many global references and copies of arrays are not given back, and the
-- calls of methods, in order.
pub record View : Type 0 where
  pub attached : Bool
  pub pending : Bool
  pub globals : ℕ
  pub copies : ℕ
  pub received : List (Ref × Ref × List JavaValue)

-- How many references an answer holds.
abbrev pub held {ℓ} : {A : Type ℓ} → Option A → ℕ
held none = 0
held (some a) = 1

-- The JNI specification. `see` is the view of a state, and `contents` what an array holds. A call may
-- leave an exception pending only where `pending` is left open.
pub record Documented {W : Type 0} (vm : Machine W) (see : W → View) (contents : Ref → W → List ℕ)
    : Type 0 where
  pub get_env-ok : (w : W) → vm.get_env w ≡ ok → (see w).attached ≡ true
  pub get_env-detached : (w : W) → vm.get_env w ≡ detached → (see w).attached ≡ false
  pub attach_succeeds :
      (w : W) → (vm.attach w).0 ≡ true → see (vm.attach w).1 ≡ record (see w) { attached = true }
  pub attach_fails : (w : W) → (vm.attach w).0 ≡ false → see (vm.attach w).1 ≡ see w
  pub detach_lem : (w : W) → see (vm.detach w) ≡ record (see w) { attached = false }
  pub call_lem :
      (r m : Ref) (args : List JavaValue) (w : W)
      → see (vm.call_void_method r m args w) ≡ record (see w) {
        received = (see w).received ++ ((r, m, args) ∷ []);
        pending = (see (vm.call_void_method r m args w)).pending;
      }
  pub check_lem : (w : W) → vm.exception_check w ≡ (see w).pending
  pub describe_lem : (w : W) → see (vm.exception_describe w) ≡ record (see w) { pending = false }
  pub clear_lem : (w : W) → see (vm.exception_clear w) ≡ record (see w) { pending = false }
  pub class_lem : (r : Ref) (w : W) → see (vm.get_object_class r w).1 ≡ see w
  pub method_lem :
      (r : Ref) (w : W)
      → see (vm.get_method_id r w).1
        ≡ record (see w) { pending = (see (vm.get_method_id r w).1).pending }
  pub new_global_lem :
      (r : Ref) (w : W)
      → see (vm.new_global_ref r w).1 ≡ record (see w) {
        globals = (see w).globals + held (vm.new_global_ref r w).0;
        pending = (see (vm.new_global_ref r w).1).pending;
      }
  pub delete_global_lem :
      (r : Option Ref) (w : W)
      → see (vm.delete_global_ref r w) ≡ record (see w) { globals = (see w).globals - held r }
  pub length_lem : (a : Ref) (w : W) → vm.array_length a w ≡ length (contents a w)
  pub contents-IsBytes : (a : Ref) (w : W) → IsBytes (contents a w)
  pub elements_lem :
      (a : Ref) (w : W)
      → see (vm.get_elements a w).1 ≡ record (see w) {
        copies = (see w).copies + held (vm.get_elements a w).0;
        pending = (see (vm.get_elements a w).1).pending;
      }
  pub elements-contents :
      (a : Ref) (w : W) {bytes : List ℕ}
      → (vm.get_elements a w).0 ≡ some bytes
      → bytes ≡ contents a w
  pub release_lem :
      (a : Ref) (w : W)
      → see (vm.release_elements a w) ≡ record (see w) { copies = (see w).copies - 1 }
  pub new_array_lem :
      (n : ℕ) (w : W)
      → see (vm.new_byte_array n w).1
        ≡ record (see w) { pending = (see (vm.new_byte_array n w).1).pending }
  pub new_array-length :
      (n : ℕ) (w : W) {a : Ref}
      → (vm.new_byte_array n w).0 ≡ some a
      → length (contents a (vm.new_byte_array n w).1) ≡ n
  pub region_lem : (a : Ref) (bytes : List ℕ) (w : W) → see (vm.set_region a bytes w) ≡ see w
  pub region-contents :
      (a : Ref) (bytes : List ℕ) (w : W)
      → IsBytes bytes
      → length bytes ≡ length (contents a w)
      → contents a (vm.set_region a bytes w) ≡ bytes
