-- ===== src/Inject.antt =====
-- host/src/input/inject.h and inject.cpp: tablet input events become calls of the Windows input functions. A flag word is
-- the list of its flags. The events are read from memory that begins with the batch, and may go on past it.
pub mod Device
pub mod Events
pub mod Values
use m_extender.Prelude.{
  ℕ, zero, suc, ◌+◌, ◌*◌, ◌/◌, ◌%◌, ◌-◌, Bool, true, false, not, ◌&&◌, ◌||◌, List, [], ◌∷◌, ◌++◌,
  Option, none, some, drop, ltb, leb, ◌==◌, if◌then◌else◌,
}
use m_extender.Prelude.Int.{ℤ, pos, negsuc, ◌+ℤ◌, ◌-ℤ◌, ltb_ℤ, tdiv}
use m_extender.Wire.{InputEvent, decode_event, field}

-- SP_INPUT_*.
abbrev pub input_move : ℕ
input_move = 0

abbrev pub input_down : ℕ
input_down = 1

abbrev pub input_up : ℕ
input_up = 2

abbrev pub stylus_down : ℕ
stylus_down = 3

abbrev pub stylus_move : ℕ
stylus_move = 4

abbrev pub stylus_up : ℕ
stylus_up = 5

abbrev pub input_cancel : ℕ
input_cancel = 6

-- POINTER_FLAG_*.
pub data PointerFlag : Type 0 where
  down update up in_range in_contact first_button primary canceled : PointerFlag

unfoldable pub pen_flags_for_type : ℕ → List PointerFlag
pen_flags_for_type type =
    if type == stylus_down
    then down ∷ in_range ∷ in_contact ∷ first_button ∷ primary ∷ []
    else if type == stylus_move
    then update ∷ in_range ∷ in_contact ∷ first_button ∷ primary ∷ []
    else if type == stylus_up
    then up ∷ []
    else if type == input_cancel
    then up ∷ canceled ∷ []
    else []

unfoldable pub touch_flags_for_type : ℕ → List PointerFlag
touch_flags_for_type type =
    if type == stylus_down
    then down ∷ in_range ∷ in_contact ∷ []
    else if type == stylus_move
    then update ∷ in_range ∷ in_contact ∷ []
    else if type == stylus_up
    then up ∷ []
    else if type == input_cancel
    then canceled ∷ up ∷ []
    else []

-- MOUSEEVENTF_*.
pub data MouseFlag : Type 0 where
  move absolute left_down right_down middle_down left_up right_up middle_up : MouseFlag

-- The calls of the Windows input functions: the fields that depend on the event.
pub data Call : Type 0 where
  send_input : Option ℕ → Option ℕ → List MouseFlag → Call
  touch_input : ℕ → List PointerFlag → ℤ → ℤ → Call
  pen_input : List PointerFlag → ℤ → ℤ → ℕ → ℤ → ℤ → Call

pub record Injector : Type 0 where
  pub offset_x : ℤ
  pub offset_y : ℤ
  pub monitor_w : ℕ
  pub monitor_h : ℕ
  pub touch_ok : Bool
  pub pen_dev : Option ℕ
  pub pen_ok : Bool

abbrev pen_created : Option ℕ → Bool
pen_created none = false
pen_created (some device) = true

-- Init, given what InitializeTouchInjection reports and the device of CreateSyntheticPointerDevice, if any.
unfoldable pub init : ℤ → ℤ → ℕ → ℕ → Bool → Option ℕ → Injector
init offset_x offset_y monitor_w monitor_h touch pen = record {
  offset_x = offset_x;
  offset_y = offset_y;
  monitor_w = monitor_w;
  monitor_h = monitor_h;
  touch_ok = touch;
  pen_dev = pen;
  pen_ok = pen_created pen;
}

abbrev pub device_list : Option ℕ → List ℕ
device_list none = []
device_list (some device) = device ∷ []

-- ~InputInjector: the devices that DestroySyntheticPointerDevice is called with, and the object after it.
unfoldable pub destroy_injector : Injector → Injector × List ℕ
destroy_injector inj = (record inj { pen_dev = none }, device_list inj.pen_dev)

-- The virtual screen, by GetSystemMetrics.
pub record VirtualScreen : Type 0 where
  pub x : ℤ
  pub y : ℤ
  pub w : ℤ
  pub h : ℤ

-- (UINT)(d * 65536.0 / size) + 1. For the sizes of a screen the cast of the double is the quotient;
-- the cast of a negative double is undefined, `none`; the call is made with it all the same.
unfoldable pub normalized : ℤ → ℕ → Option ℕ
normalized (pos d) size = some (d * 65536 / size + 1)
normalized (negsuc d) size = none

-- Bit k of the buttons.
abbrev pressed : ℕ → ℕ → Bool
pressed buttons weight = buttons / weight % 2 == 1

abbrev flag_if : Bool → MouseFlag → List MouseFlag
flag_if true f = f ∷ []
flag_if false f = []

unfoldable pub button_flags : ℕ → ℕ → List MouseFlag
button_flags type buttons =
    if type == input_up
    then flag_if (pressed buttons 1) left_up
      ++ (flag_if (pressed buttons 2) right_up ++ flag_if (pressed buttons 4) middle_up)
    else flag_if (pressed buttons 1) left_down
      ++ (flag_if (pressed buttons 2) right_down ++ flag_if (pressed buttons 4) middle_down)

abbrev pub size_of : ℤ → ℕ
size_of (pos n) = n
size_of (negsuc n) = 0

unfoldable pub inject_mouse : Injector → VirtualScreen → ℕ → ℕ → ℕ → ℕ → List Call
unfolding normalized button_flags
inject_mouse inj vs x y buttons type =
    if size_of vs.w == 0 || size_of vs.h == 0
    then []
    else send_input (normalized (inj.offset_x +ℤ pos x -ℤ vs.x) (size_of vs.w))
        (normalized (inj.offset_y +ℤ pos y -ℤ vs.y) (size_of vs.h))
        (move ∷ absolute ∷ button_flags type buttons)
      ∷ []

unfoldable pub inject_touch : Injector → ℕ → ℕ → ℕ → ℕ → List Call
unfolding touch_flags_for_type
inject_touch inj x y type contact =
    if inj.touch_ok
    then touch_input (contact % 16) (touch_flags_for_type type) (inj.offset_x +ℤ pos x)
        (inj.offset_y +ℤ pos y)
      ∷ []
    else []

-- An int16_t from its bit pattern.
unfoldable pub signed16 : ℕ → ℤ
signed16 n = if ltb n 32768 then pos n else negsuc (65535 - n)

unfoldable pub pen_pressure : ℕ → ℕ
pen_pressure pressure = pressure * 1024 / 255

unfoldable pub inject_pen : Injector → ℕ → ℕ → ℕ → ℕ → ℕ → ℕ → List Call
unfolding pen_flags_for_type signed16 pen_pressure
inject_pen inj x y type pressure tilt_x tilt_y =
    if inj.pen_ok
    then pen_input (pen_flags_for_type type) (inj.offset_x +ℤ pos x) (inj.offset_y +ℤ pos y)
        (pen_pressure pressure) (tdiv (signed16 tilt_x) 10) (tdiv (signed16 tilt_y) 10)
      ∷ []
    else []

-- The switch of InjectBatch.
unfoldable pub inject_event : Injector → VirtualScreen → InputEvent → List Call
unfolding inject_mouse inject_touch inject_pen
inject_event inj vs ev =
    if leb ev.type input_up
    then inject_mouse inj vs ev.x ev.y ev.buttons ev.type
    else if leb ev.type input_cancel
    then (if inj.pen_ok && not (ev.type == input_cancel)
        then inject_pen inj ev.x ev.y ev.type ev.pressure ev.tilt_x ev.tilt_y
        else if inj.pen_ok
        then inject_pen inj 0 0 ev.type 0 0 0
        else inject_touch inj ev.x ev.y ev.type ev.pointer_id)
    else []

unfoldable pub inject_events : Injector → VirtualScreen → ℕ → List ℕ → List Call
inject_events inj vs zero memory = []
inject_events inj vs (suc n) memory =
    inject_event inj vs (decode_event memory) ++ inject_events inj vs n (drop 12 memory)

unfoldable pub inject_batch : Injector → VirtualScreen → List ℕ → List Call
unfolding inject_events
inject_batch inj vs memory = inject_events inj vs (field 0 4 memory) (drop 4 memory)
