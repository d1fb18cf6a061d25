-- ===== src/Wire/Fields.antt =====
-- The little-endian fields of proto/protocol.h: a field of k bytes read back.
use native.Mathlib.Nat.{pow-suc}
use m_extender.Prelude.{ℕ, zero, suc, ◌*◌, ◌/◌, ◌^◌, ◌<◌, ◌≡◌, refl, ap, length, arith, All}
use m_extender.Wire.{le, un_le}

pub length-le : (k n : ℕ) → length (le k n) ≡ k
unfolding le
length-le zero n = refl
length-le (suc k) n = ap suc (length-le k (n / 256))

pub le-All_bytes : (k n : ℕ) → All (λ b. b < 256) (le k n)
unfolding le
le-All_bytes zero n = tt
le-All_bytes (suc k) n = (omega arith, le-All_bytes k (n / 256))

quotient_bound : (n p : ℕ) → n < p * 256 → n / 256 < p
quotient_bound n p h = omega arith

pub un_le-le : (k n : ℕ) → n < 256 ^ k → un_le (le k n) ≡ n
unfolding le un_le
un_le-le zero n h = omega arith
un_le-le (suc k) n h =
    omega (arith, un_le-le k (n / 256) (quotient_bound n (256 ^ k) (rw (pow-suc 256 k) at h)))
