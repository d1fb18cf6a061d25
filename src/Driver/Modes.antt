-- ===== src/Driver/Modes.antt =====
-- The monitor modes of driver/src/Driver.cpp: float_to_vsync, CreateTargetMode, GetFallbackModes, the modes of
-- LoadConfiguration, and the answer of VirtualDisplayDriverMonitorQueryModes. A refresh rate is given by
-- lround(rate * 10000), a number that is not negative.
pub mod Vsync
use mathlib.Core.WellFounded.{Acc, WellFounded}
use mathlib.Core.Logic.{dite}
use native.Mathlib.Decide.{dec_lt}
use m_extender.Prelude.{
  ℕ, zero, suc, ◌+◌, ◌*◌, ◌/◌, ◌%◌, ◌<◌, List, [], ◌∷◌, map, length, ltb, if◌then◌else◌, arith,
}
use m_extender.Prelude.Words.{u32, u64}

below : (k n : ℕ) → n < k → Acc ◌<◌ n
below zero n h = elim h [ ]
below (suc k) n h = Acc.intro n (λ m hm. below k m (omega arith))

mod_below : (a b : ℕ) → 0 < b → a % b < b
mod_below a b h = omega arith

-- std::gcd: the divisor gets smaller in each round.
gcd_acc : (value divisor : ℕ) → Acc ◌<◌ divisor → ℕ
gcd_acc value divisor (Acc.intro _ further) =
    dite (dec_lt 0 divisor)
      (λ h.
        gcd_acc divisor (value % divisor) (further (value % divisor) (mod_below value divisor h)))
      (λ _. value)

ready : (b : ℕ) → Acc ◌<◌ b
unfolding below
ready b = below (suc b) b (omega arith)

unfoldable pub gcd : ℕ → ℕ → ℕ
unfolding gcd_acc ready mod_below dec_lt
gcd a b = gcd_acc a b (ready b)

-- The numerator and the denominator for a rate.
unfoldable pub float_to_vsync : ℕ → ℕ × ℕ
float_to_vsync rounded = let divisor = gcd rounded 10000 in (rounded / divisor, 10000 / divisor)

-- The fields that CreateTargetMode sets in a DISPLAYCONFIG_VIDEO_SIGNAL_INFO.
pub record TargetMode : Type 0 where
  pub width : ℕ
  pub height : ℕ
  pub vsync_num : ℕ
  pub vsync_den : ℕ
  pub hsync_num : ℕ
  pub hsync_den : ℕ
  pub pixel_rate : ℕ

unfoldable pub create_target_mode : ℕ × ℕ × ℕ × ℕ → TargetMode
create_target_mode (w, h, num, den) = record {
  width = w;
  height = h;
  vsync_num = num;
  vsync_den = den;
  hsync_num = u32 (num * h);
  hsync_den = den;
  pixel_rate = u64 (u64 (u64 (num * w) * h) / den);
}

-- A mode as width, height and rounded rate.
unfoldable pub spec_mode : ℕ × ℕ × ℕ → ℕ × ℕ × ℕ × ℕ
unfolding float_to_vsync gcd
spec_mode (w, h, rounded) = let (num, den) = float_to_vsync rounded in (w, h, num, den)

unfoldable pub fallback_modes : List (ℕ × ℕ × ℕ × ℕ)
unfolding spec_mode
fallback_modes = map spec_mode (
    (1920, 1080, 600000)
    ∷ (2560, 1440, 600000)
    ∷ (3840, 2160, 600000)
    ∷ (1920, 1200, 600000)
    ∷ (2560, 1600, 600000)
    ∷ (2732, 2048, 600000)
    ∷ (1600, 2560, 600000)
    ∷ (1280, 800, 600000)
    ∷ (1920, 1080, 1200000)
    ∷ (2560, 1440, 1200000)
    ∷ (3840, 2160, 300000)
    ∷ [])

-- The modes that LoadConfiguration publishes for the modes that it loaded.
unfoldable pub known_modes : List (ℕ × ℕ × ℕ × ℕ) → List TargetMode
unfolding create_target_mode
known_modes modes = map create_target_mode modes

-- QueryTargetModes: the count that is reported, and the modes written to a buffer of that size.
unfoldable pub query_modes : List TargetMode → ℕ → ℕ × List TargetMode
query_modes modes room =
    if ltb room (length modes) then (length modes, []) else (length modes, modes)
