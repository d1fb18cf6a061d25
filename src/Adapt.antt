-- ===== src/Adapt.antt =====
-- The adaptive-resolution controller of the main loop in host/src/main.cpp: the smoothed send time of the
-- video frames, its streaks, and the scale step. The doubles are a parameter; the streaks are ints, kept as
-- plain numbers.
pub mod Streaks
use m_extender.Prelude.{ℕ, ◌+◌, ◌-◌, Bool, ◌&&◌, List, [], ◌∷◌, ltb, leb, if◌then◌else◌}

abbrev pub scale_count : ℕ
scale_count = 4

abbrev pub send_up_frames : ℕ
send_up_frames = 45

abbrev pub send_down_frames : ℕ
send_down_frames = 150

-- The doubles, with the operations and the constants that the controller uses: 0.9, 0.1, kSendUpMs
-- and kSendDownMs.
pub record Doubles : Type 1 where
  pub D : Type 0
  pub add : D → D → D
  pub mul : D → D → D
  pub is_zero : D → Bool
  pub lt : D → D → Bool
  pub keep_weight : D
  pub new_weight : D
  pub send_up_ms : D
  pub send_down_ms : D

-- What the smoothed send time says of the link.
pub data Signal : Type 0 where
  congested clear between : Signal

pub record Controller : Type 0 where
  pub scale_idx : ℕ
  pub send_up_streak : ℕ
  pub send_down_streak : ℕ

abbrev pub controller_start : Controller
controller_start = record { scale_idx = 0; send_up_streak = 0; send_down_streak = 0 }

unfoldable pub count_streaks : Signal → Controller → Controller
count_streaks congested s = record s { send_up_streak = s.send_up_streak + 1; send_down_streak = 0 }
count_streaks clear s = record s { send_up_streak = 0; send_down_streak = s.send_down_streak + 1 }
count_streaks between s = record s { send_up_streak = 0; send_down_streak = 0 }

unfoldable pub move_scale : Controller → Controller
move_scale s =
    if leb send_up_frames s.send_up_streak && ltb s.scale_idx (scale_count - 1)
    then record s { scale_idx = s.scale_idx + 1; send_up_streak = 0 }
    else if leb send_down_frames s.send_down_streak && ltb 0 s.scale_idx
    then record s { scale_idx = s.scale_idx - 1; send_down_streak = 0 }
    else s

unfoldable pub on_signal : Signal → Controller → Controller
unfolding count_streaks move_scale
on_signal g s = move_scale (count_streaks g s)

-- The frames that were sent, one after another.
unfoldable pub on_signals : List Signal → Controller → Controller
on_signals [] s = s
on_signals (g ∷ gs) s = on_signals gs (on_signal g s)

module _ (doubles : Doubles) where
  open doubles use {D, add, mul, is_zero, lt, keep_weight, new_weight, send_up_ms, send_down_ms}

  unfoldable pub smooth : D → D → D
  smooth avg send_ms =
      if is_zero avg then send_ms else add (mul avg keep_weight) (mul send_ms new_weight)

  unfoldable pub classify : D → Signal
  classify avg =
      if lt send_up_ms avg then congested else if lt avg send_down_ms then clear else between

  -- What follows a video frame that took `send_ms` to send.
  unfoldable pub after_send : D → D × Controller → D × Controller
  unfolding smooth classify
  after_send send_ms (avg, s) = let avg' = smooth avg send_ms in (avg', on_signal (classify avg') s)

  unfoldable pub after_sends : List D → D × Controller → D × Controller
  after_sends [] t = t
  after_sends (ms ∷ rest) t = after_sends rest (after_send ms t)
