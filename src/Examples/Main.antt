-- ===== src/Examples/Main.antt =====
-- The main loop of host/src/main.cpp at concrete states.
use m_extender.Prelude.{none, ℕ, ◌≡◌, ◌||◌, true, false, List, [], ◌∷◌, ltb, ◌==◌, ◌+◌, ◌*◌, All}
use m_extender.Prelude.Int.{pos}
use m_extender.Adapt.{Doubles, controller_start, after_sends}
use m_extender.Adapt.Streaks.{Inv, after_sends_safe}
use m_extender.Scale.{Gpu}
use m_extender.Inject.{Injector, VirtualScreen}
use m_extender.Session.{drain}
use m_extender.Session.Drain.{InRange, asks_keyframe, drain_lem}

-- Milliseconds as whole numbers stand for the doubles here.
abbrev pub whole : Doubles
whole = record {
  D = ℕ;
  add = λ a b. a + b;
  mul = λ a b. a * b;
  is_zero = λ a. a == 0;
  lt = ltb;
  keep_weight = 1;
  new_weight = 1;
  send_up_ms = 18;
  send_down_ms = 6;
}

after_sends_safe_example : Inv (after_sends whole (20 ∷ 3 ∷ []) (0, controller_start)).1
after_sends_safe_example = after_sends_safe whole (20 ∷ 3 ∷ []) 0

abbrev pub works : Gpu
works = record { resize_ok = λ w h. true; scale_ok = λ w h. true }

abbrev pub injector : Injector
injector = record {
  offset_x = pos 0;
  offset_y = pos 0;
  monitor_w = 1920;
  monitor_h = 1080;
  touch_ok = true;
  pen_dev = none;
  pen_ok = false;
}

abbrev pub screen : VirtualScreen
screen = record { x = pos 0; y = pos 0; w = pos 1920; h = pos 1080 }

-- A request for a bitrate of 5, and one for a keyframe.
abbrev inbound : List (ℕ × List ℕ)
inbound = (6, 1 ∷ 0 ∷ 0 ∷ 0 ∷ 5 ∷ 0 ∷ 0 ∷ 0 ∷ []) ∷ (4, []) ∷ []

drain_lem_example :
    All InRange (drain injector screen [] false inbound).1
    × ((drain injector screen [] false inbound).0 ≡ (false || asks_keyframe inbound))
drain_lem_example = drain_lem injector screen [] false inbound
