-- ===== src/Audio/Convert/Samples.antt =====
-- What ConvertToStereo of host/src/audio/capture.cpp makes of a packet.
use native.Mathlib.Nat.{add-zero}
use m_extender.Prelude.{
  ℕ, zero, suc, ◌+◌, ◌*◌, ◌%◌, ◌<◌, ◌≡◌, refl, false, List, [], ◌∷◌, length, get_or, drop, take,
  arith, length-replicate, get_or-drop,
}
use m_extender.Wire.{un_le, field}
use m_extender.Audio.Convert.{
  CaptureFormat, sar, sample_24, sample, convert_frames, convert_to_stereo,
}

length-convert_frames :
    (f : List ℕ → ℕ) (fmt : CaptureFormat) (src : List ℕ) (i n : ℕ)
    → length (convert_frames f fmt src i n) ≡ 2 * n
unfolding convert_frames
length-convert_frames f fmt src i zero = omega arith
length-convert_frames f fmt src i (suc n) = omega (arith, length-convert_frames f fmt src (i + 1) n)

-- Every packet fills its output buffer exactly, two samples for a frame, also when the depth is not
-- supported.
pub length-convert_to_stereo :
    (f : List ℕ → ℕ) (fmt : CaptureFormat) (src : List ℕ) (frames : ℕ)
    → length (convert_to_stereo f fmt src frames) ≡ 2 * frames
unfolding convert_to_stereo
length-convert_to_stereo f fmt src frames =
    ground (arith, length-convert_frames f fmt src 0 frames, length-replicate (2 * frames) zero)

abbrev pub Bytes : List ℕ → ℕ → Type 0
Bytes src at =
    (get_or src at 0 < 256)
    × (get_or src (at + 1) 0 < 256)
    × (get_or src (at + 2) 0 < 256)
    × (get_or src (at + 3) 0 < 256)

sar_16 :
    (a b c d : ℕ)
    → a < 256
    → b < 256
    → c < 256
    → d < 256
    → sar (a + 256 * (b + 256 * (c + 256 * d))) 16 % 65536 ≡ c + 256 * d
unfolding sar
sar_16 a b c d ha hb hc hd = ground arith

top_24 :
    (src : List ℕ) (at : ℕ)
    → Bytes src at
    → sar (sample_24 src at) 8 % 65536 ≡ get_or src (at + 1) 0 + 256 * get_or src (at + 2) 0
unfolding sar sample_24
top_24 src at h = ground arith

un_le_two : (xs : List ℕ) → un_le (take 2 xs) ≡ get_or xs 0 0 + 256 * get_or xs 1 0
unfolding un_le
un_le_two [] = refl
un_le_two (a ∷ []) = omega arith
un_le_two (a ∷ b ∷ xs) = omega arith

un_le_four :
    (xs : List ℕ)
    → un_le (take 4 xs)
      ≡ get_or xs 0 0 + 256 * (get_or xs 1 0 + 256 * (get_or xs 2 0 + 256 * get_or xs 3 0))
unfolding un_le
un_le_four [] = refl
un_le_four (a ∷ []) = omega arith
un_le_four (a ∷ b ∷ []) = omega arith
un_le_four (a ∷ b ∷ c ∷ []) = omega arith
un_le_four (a ∷ b ∷ c ∷ d ∷ xs) = omega arith

top_32 :
    (src : List ℕ) (at : ℕ)
    → Bytes src at
    → sar (field at 4 src) 16 % 65536 ≡ get_or src (at + 2) 0 + 256 * get_or src (at + 3) 0
unfolding field
top_32 src at (a, b, c, d) =
    rw
      (
        un_le_four (drop at src),
        get_or-drop at 0 src 0,
        get_or-drop at 1 src 0,
        get_or-drop at 2 src 0,
        get_or-drop at 3 src 0,
        add-zero,
      )
      (sar_16 _ _ _ _ a b c d)

top_16 : (src : List ℕ) (at : ℕ) → field at 2 src ≡ get_or src at 0 + 256 * get_or src (at + 1) 0
unfolding field
top_16 src at =
    rw (un_le_two (drop at src), get_or-drop at 0 src 0, get_or-drop at 1 src 0, add-zero)

-- For each integer depth the sample kept is the most significant 16 bits, the last two bytes of the little-endian sample,
-- whatever its sign.
pub sample_top :
    (f : List ℕ → ℕ) (fmt : CaptureFormat) (src : List ℕ) (at : ℕ)
    → fmt.is_float ≡ false
    → Bytes src at
    → (fmt.bits ≡ 16 → sample f fmt src at ≡ get_or src at 0 + 256 * get_or src (at + 1) 0)
      × (fmt.bits ≡ 24 → sample f fmt src at ≡ get_or src (at + 1) 0 + 256 * get_or src (at + 2) 0)
      × (fmt.bits ≡ 32 → sample f fmt src at ≡ get_or src (at + 2) 0 + 256 * get_or src (at + 3) 0)
sample_top f fmt src at i b = (
  (λ e. unfold sample in simp (i, e) (top_16 src at)),
  (λ e. unfold sample in simp (i, e) (top_24 src at b)),
  (λ e. unfold sample in simp (i, e) (top_32 src at b)),
)
