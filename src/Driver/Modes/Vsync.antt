-- ===== src/Driver/Modes/Vsync.antt =====
-- The vertical sync of driver/src/Driver.cpp is the refresh rate, as a fraction in lowest terms.
use mathlib.Core.WellFounded.{Acc}
use mathlib.Core.Logic.{dif_pos, dif_neg}
use native.Mathlib.Decide.{dec_lt}
use native.Mathlib.Nat.{mul_comm}
use native.Mathlib.Bridge.{le_prop}
use m_extender.Prelude.{ℕ, zero, suc, ◌+◌, ◌*◌, ◌/◌, ◌%◌, ◌<◌, ◌≡◌, ◌∙◌, ap, arith}
use m_extender.Driver.Modes.{gcd_acc, mod_below, ready, gcd, float_to_vsync}

-- d divides n.
abbrev pub Divides : ℕ → ℕ → Type 0
Divides d n = (k : ℕ) × (n ≡ k * d)

Divides-step : (d a b : ℕ) → 0 < b → Divides d b → Divides d (a % b) → Divides d a
Divides-step d a b h (k, e) (m, f) = (a / b * k + m, omega (arith, ap (λ (t : ℕ). a / b * t) e, f))

gcd_acc-Divides : (a b : ℕ) (w : Acc ◌<◌ b) → Divides (gcd_acc a b w) a × Divides (gcd_acc a b w) b
unfolding gcd_acc
gcd_acc-Divides a b (Acc.intro _ smaller) = elim (dec_lt 0 b) [
  | yes h ↦ rw (dif_pos _ le_prop h) (
      let ih = gcd_acc-Divides b (a % b) (smaller (a % b) (mod_below a b h)) in
      (Divides-step _ a b h ih.0 ih.1, ih.0))
  | no h ↦ rw (dif_neg _ h) ((1, omega arith), (0, omega arith))
]

gcd-Divides : (a b : ℕ) → Divides (gcd a b) a × Divides (gcd a b) b
unfolding gcd
gcd-Divides a b = gcd_acc-Divides a b (ready b)

quotient : (a d k : ℕ) → 0 < d → a ≡ k * d → a / d ≡ k
quotient a d k h e = grind arith

-- What a common divisor leaves of a product of quotients.
cross : (a b d k m : ℕ) → 0 < d → a ≡ k * d → b ≡ m * d → a / d * b ≡ a * (b / d)
cross a b d k m h e f =
    rw (quotient a d k h e, quotient b d m h f)
      (omega (arith, ap (λ (t : ℕ). k * t) f, ap (λ (t : ℕ). t * m) e))

divisor_pos : (d n : ℕ) → 0 < n → Divides d n → 0 < d
divisor_pos zero n h (k, e) = absurd (omega arith)
divisor_pos (suc d) n h (k, e) = omega arith

-- The fraction of float_to_vsync is exact, 10000 times its value is the rounded rate, and its denominator is not 0.
pub float_to_vsync_lem :
    (rounded : ℕ)
    → let (num, den) = float_to_vsync rounded in (num * 10000 ≡ rounded * den) × (0 < den)
unfolding float_to_vsync
float_to_vsync_lem rounded =
    let d = gcd rounded 10000 in
    let (x, y) = gcd-Divides rounded 10000 in
    let p : 0 < d = divisor_pos d 10000 (omega arith) y in
    let q = quotient 10000 d y.0 p y.1 in
    (
      cross rounded 10000 d x.0 y.0 p x.1 y.1,
      rw q (divisor_pos y.0 10000 (omega arith) (d, y.1 ∙ mul_comm y.0 d)),
    )
