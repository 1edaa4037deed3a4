-- ===== src/Jni/Args.antt =====
-- The arguments of `onRcState`: how src/rc_monitor_jni.c passes them, and how
-- java/space/yasha/rcmonitor/RcMonitor.java takes them.
use Prim.Native.String.{String}
use mathlib.Core.Option
use rc_monitor.Base.{ℕ, List, [], ◌∷◌, Bool, Option, none, some, if◌then◌else◌, ◌==◌}
use rc_monitor.Base.Int.{ℤ, pos, negsuc}
use rc_monitor.State.{RcState, flight_mode_code}

-- A `jboolean` or a `jint`.
pub data JavaValue : Type 0 where
  jboolean : Bool → JavaValue
  jint : ℤ → JavaValue

-- The arguments of `CallVoidMethod` in `jni_rc_callback`, in order.
unfoldable pub java_args : RcState → List JavaValue
java_args s =
    jboolean s.pause
    ∷ jboolean s.gohome
    ∷ jboolean s.shutter
    ∷ jboolean s.record_button
    ∷ jboolean s.custom1
    ∷ jboolean s.custom2
    ∷ jboolean s.custom3
    ∷ jboolean s.five_d.up
    ∷ jboolean s.five_d.down
    ∷ jboolean s.five_d.left
    ∷ jboolean s.five_d.right
    ∷ jboolean s.five_d.center
    ∷ jint (pos (flight_mode_code s.flight_mode))
    ∷ jint s.stick_right.horizontal
    ∷ jint s.stick_right.vertical
    ∷ jint s.stick_left.horizontal
    ∷ jint s.stick_left.vertical
    ∷ jint s.left_wheel
    ∷ jint s.right_wheel
    ∷ jint s.right_wheel_delta
    ∷ []

-- A Java type, as a descriptor of a method writes it: `Z` or `I`.
pub data JavaType : Type 0 where
  boolean int : JavaType

unfoldable pub type_of : JavaValue → JavaType
type_of (jboolean b) = boolean
type_of (jint v) = int

-- The descriptor that `nativeInit` gives to `GetMethodID`.
abbrev pub descriptor : String
descriptor = "(ZZZZZZZZZZZZIIIIIIII)V"

-- The types between the parentheses of a descriptor whose result is `void`. These are the types that
-- the program uses; any other text has no reading here.
unfoldable pub parameters : List ℕ → Option (List JavaType)
parameters [] = none
parameters (c ∷ cs) =
    let rest = parameters cs in
    if c == b'Z'
    then Option.map (λ ts. boolean ∷ ts) rest
    else if c == b'I'
    then Option.map (λ ts. int ∷ ts) rest
    else if c == b')'
    then (elim cs [ [] ↦ none | r ∷ rs ↦ if r == b'V' then some [] else none ])
    else none

unfoldable pub read_descriptor : List ℕ → Option (List JavaType)
unfolding parameters
read_descriptor [] = none
read_descriptor (c ∷ cs) = if c == b'(' then parameters cs else none

-- `RcMonitor.RcState`, whose flight mode is a number.
pub record JavaState : Type 0 where
  pub pause : Bool
  pub gohome : Bool
  pub shutter : Bool
  pub record_button : Bool
  pub custom1 : Bool
  pub custom2 : Bool
  pub custom3 : Bool
  pub five_d_up : Bool
  pub five_d_down : Bool
  pub five_d_left : Bool
  pub five_d_right : Bool
  pub five_d_center : Bool
  pub flight_mode : ℤ
  pub stick_right_h : ℤ
  pub stick_right_v : ℤ
  pub stick_left_h : ℤ
  pub stick_left_v : ℤ
  pub left_wheel : ℤ
  pub right_wheel : ℤ
  pub right_wheel_delta : ℤ

-- `SimpleListener.onRcState`: its parameters by position, and the state that it hands to `onState`.
-- A call with other arguments does not reach the method.
unfoldable pub on_rc_state : List JavaValue → Option JavaState
on_rc_state
      (jboolean pause
        ∷ jboolean gohome
        ∷ jboolean shutter
        ∷ jboolean rec
        ∷ jboolean custom1
        ∷ jboolean custom2
        ∷ jboolean custom3
        ∷ jboolean up
        ∷ jboolean down
        ∷ jboolean left
        ∷ jboolean right
        ∷ jboolean center
        ∷ jint mode
        ∷ jint right_h
        ∷ jint right_v
        ∷ jint left_h
        ∷ jint left_v
        ∷ jint left_wheel
        ∷ jint right_wheel
        ∷ jint delta
        ∷ []) =
    some (record {
      pause = pause;
      gohome = gohome;
      shutter = shutter;
      record_button = rec;
      custom1 = custom1;
      custom2 = custom2;
      custom3 = custom3;
      five_d_up = up;
      five_d_down = down;
      five_d_left = left;
      five_d_right = right;
      five_d_center = center;
      flight_mode = mode;
      stick_right_h = right_h;
      stick_right_v = right_v;
      stick_left_h = left_h;
      stick_left_v = left_v;
      left_wheel = left_wheel;
      right_wheel = right_wheel;
      right_wheel_delta = delta;
    })
on_rc_state _ = none

-- `RcState.flightModeString`
unfoldable pub flight_mode_string : ℤ → String
flight_mode_string (pos n) =
    if n == 0 then "Sport" else if n == 1 then "Normal" else if n == 2 then "Tripod" else "Unknown"
flight_mode_string (negsuc n) = "Unknown"
