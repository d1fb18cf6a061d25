-- ===== src/Adapt/Streaks.antt =====
-- The scale step stays in its table, waits for whole streaks, and answers a lasting congestion.
use m_extender.Prelude.{
  ℕ, zero, suc, ◌+◌, ◌-◌, ◌≤◌, ◌<◌, ◌≡◌, ◌⊎◌, refl, ap, ◌∙◌, List, [], ◌∷◌, length, replicate,
  arith,
}
use m_extender.Adapt.{
  Doubles, Signal, congested, clear, between, Controller, controller_start, scale_count,
  send_up_frames, send_down_frames, on_signal, on_signals, after_send, after_sends,
}

pub record Inv (s : Controller) : Type 0 where
  pub in_table : s.scale_idx < scale_count
  pub one_streak : (s.send_up_streak ≡ 0) ⊎ (s.send_down_streak ≡ 0)
  pub up_pending : s.scale_idx < 3 → s.send_up_streak < send_up_frames
  pub down_pending : 0 < s.scale_idx → s.send_down_streak < send_down_frames

on_signal-Inv : (g : Signal) (s : Controller) → Inv s → Inv (on_signal g s)
unfolding on_signal
on_signal-Inv congested s v = ground arith
on_signal-Inv clear s v = ground arith
on_signal-Inv between s v = ground arith

controller_start-Inv : Inv controller_start
controller_start-Inv = ground arith

module _ (doubles : Doubles) where
  open doubles use {D}

  after_sends-Inv :
      (times : List D) (t : D × Controller) → Inv t.1 → Inv (after_sends doubles times t).1
  unfolding after_sends after_send
  after_sends-Inv [] t v = v
  after_sends-Inv (ms ∷ rest) (avg, s) v =
      after_sends-Inv rest (after_send doubles ms (avg, s)) (on_signal-Inv _ s v)

  -- Whatever the send times and however the doubles round, the controller that starts at native
  -- size keeps its index within the table of four steps, never counts both streaks at once, and a
  -- streak that can still move the scale is shorter than its threshold.
  pub after_sends_safe :
      (times : List D) (avg : D) → Inv (after_sends doubles times (avg, controller_start)).1
  after_sends_safe times avg = after_sends-Inv times (avg, controller_start) controller_start-Inv

-- Controller grow by one a frame.
Grown : Controller → Controller → ℕ → Type 0
Grown s t n =
    (t.scale_idx ≡ s.scale_idx)
    × (t.send_up_streak ≤ s.send_up_streak + n)
    × (t.send_down_streak ≤ s.send_down_streak + n)

on_signal_short :
    (g : Signal) (s : Controller)
    → s.send_up_streak + 1 < send_up_frames
    → s.send_down_streak + 1 < send_down_frames
    → Grown s (on_signal g s) 1
unfolding on_signal Grown
on_signal_short congested s u d = ground arith
on_signal_short clear s u d = ground arith
on_signal_short between s u d = ground arith

on_signals_short :
    (gs : List Signal) (s : Controller)
    → s.send_up_streak + length gs < send_up_frames
    → s.send_down_streak + length gs < send_down_frames
    → Grown s (on_signals gs s) (length gs)
unfolding on_signals Grown
on_signals_short [] s u d = (refl, omega arith, omega arith)
on_signals_short (g ∷ gs) s u d =
    let one = on_signal_short g s (omega arith) (omega arith) in
    let rest = on_signals_short gs (on_signal g s) (omega arith) (omega arith) in
    (rest.0 ∙ one.0, omega arith, omega arith)

-- Hysteresis: after a move, and at the start, both streaks are 0, and then no sequence of fewer
-- than 45 frames moves the scale again, whatever they signal.
pub scale_holds :
    (gs : List Signal) (s : Controller)
    → s.send_up_streak ≡ 0
    → s.send_down_streak ≡ 0
    → length gs < send_up_frames
    → (on_signals gs s).scale_idx ≡ s.scale_idx
unfolding Grown
scale_holds gs s u d h = (on_signals_short gs s (omega arith) (omega arith)).0

on_congested :
    (s : Controller)
    → s.send_up_streak + 1 < send_up_frames
    → on_signal congested s
      ≡ record s { send_up_streak = s.send_up_streak + 1; send_down_streak = 0 }
unfolding on_signal
on_congested s u = ground arith

on_congested_last :
    (s : Controller)
    → s.scale_idx < 3
    → s.send_up_streak + 1 ≡ send_up_frames
    → on_signal congested s
      ≡ record { scale_idx = s.scale_idx + 1; send_up_streak = 0; send_down_streak = 0 }
unfolding on_signal
on_congested_last s i u = ground arith

congested_run :
    (k : ℕ) (s : Controller)
    → s.scale_idx < 3
    → s.send_up_streak + suc k ≡ send_up_frames
    → on_signals (replicate (suc k) congested) s
      ≡ record { scale_idx = s.scale_idx + 1; send_up_streak = 0; send_down_streak = 0 }
unfolding on_signals
congested_run zero s i u = on_congested_last s i (omega arith)
congested_run (suc k) s i u =
    ap (on_signals (replicate (suc k) congested)) (on_congested s (omega arith))
    ∙ congested_run k (record s { send_up_streak = s.send_up_streak + 1; send_down_streak = 0 }) i
        (omega arith)

-- Liveness: from any reachable state that is not at the smallest size, the congested frames that
-- complete a streak of 45 move the scale down by exactly one step and clear both streaks.
pub congestion_scales_down :
    (s : Controller)
    → Inv s
    → s.scale_idx < 3
    → on_signals (replicate (send_up_frames - s.send_up_streak) congested) s
      ≡ record { scale_idx = s.scale_idx + 1; send_up_streak = 0; send_down_streak = 0 }
congestion_scales_down s v i =
    let short = v.up_pending i in
    let e : send_up_frames - s.send_up_streak ≡ suc (44 - s.send_up_streak) = omega arith in
    rw e (congested_run (44 - s.send_up_streak) s i (omega arith))
