-- ===== src/Driver/Edid.antt =====
-- The EDID checksum of driver/src/Driver.cpp: CalculateEdidChecksum, and its use in LoadConfiguration.
pub mod Block
use m_extender.Prelude.{
  ℕ, zero, suc, ◌+◌, ◌-◌, ◌%◌, ◌<◌, ◌≡◌, List, [], ◌∷◌, length, set, ◌==◌, if◌then◌else◌, arith,
}

-- The sum of the first n bytes; the int cannot overflow, as n is 127.
unfoldable pub sum_first : ℕ → List ℕ → ℕ
sum_first zero edid = 0
sum_first (suc n) [] = 0
sum_first (suc n) (b ∷ edid) = b + sum_first n edid

unfoldable pub calculate_edid_checksum : List ℕ → ℕ
calculate_edid_checksum edid =
    let sum = sum_first 127 edid % 256 in if sum == 0 then 0 else (256 - sum) % 256

-- s_KnownMonitorEdid[127] = CalculateEdidChecksum(s_KnownMonitorEdid).
unfoldable pub with_checksum : List ℕ → List ℕ
with_checksum edid = set edid 127 (calculate_edid_checksum edid)

sum_first-set :
    (n : ℕ) (edid : List ℕ) (b : ℕ)
    → n < length edid
    → sum_first (suc n) (set edid n b) ≡ sum_first n edid + b
unfolding sum_first
sum_first-set zero [] b h = absurd (omega arith)
sum_first-set zero (x ∷ edid) b h = omega arith
sum_first-set (suc n) [] b h = absurd (omega arith)
sum_first-set (suc n) (x ∷ edid) b h = omega (arith, sum_first-set n edid b (omega arith))

-- Whatever the byte 127 was, after the load the 128 bytes of the base block sum to 0 modulo 256, as the EDID
-- standard demands.
pub with_checksum_valid :
    (edid : List ℕ) → 127 < length edid → sum_first 128 (with_checksum edid) % 256 ≡ 0
unfolding with_checksum
with_checksum_valid edid h =
    let e = sum_first-set 127 edid (calculate_edid_checksum edid) h in
    rw e (unfold calculate_edid_checksum in ground arith)
