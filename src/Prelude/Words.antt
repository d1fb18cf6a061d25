-- ===== src/Prelude/Words.antt =====
-- Machine words as native numbers: each width is a remainder.
use Prim.Native.Nat.{ℕ, ◌-◌, ◌/◌, ◌%◌, ◌^◌}
use m_extender.Prelude.Tests.{if◌then◌else◌, ltb}
use m_extender.Prelude.Int.{ℤ, pos, negsuc}

abbrev pub u8 : ℕ → ℕ
u8 n = n % 256

abbrev pub u16 : ℕ → ℕ
u16 n = n % 65536

abbrev pub u32 : ℕ → ℕ
u32 n = n % 4294967296

abbrev pub u64 : ℕ → ℕ
u64 n = n % 18446744073709551616

-- x >> k.
abbrev pub shr : ℕ → ℕ → ℕ
shr x k = x / 2 ^ k

-- x & ~1u.
abbrev pub clear_low : ℕ → ℕ
clear_low x = x - x % 2

-- static_cast<int> of a 32-bit unsigned value.
unfoldable pub as_int : ℕ → ℤ
as_int n = if ltb n 2147483648 then pos n else negsuc (4294967295 - n)
