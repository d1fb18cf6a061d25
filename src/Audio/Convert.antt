-- ===== src/Audio/Convert.antt =====
-- ConvertToStereo of host/src/audio/capture.cpp for the integer formats. The float format goes through FloatToS16, a
-- parameter here since there are no floats: a sample is its four bytes.
pub mod Samples
use m_extender.Prelude.{
  ℕ, zero, suc, ◌+◌, ◌-◌, ◌*◌, ◌/◌, ◌%◌, Bool, List, [], ◌∷◌, get_or, take, drop, replicate, ltb,
  leb, ◌==◌, if◌then◌else◌,
}
use m_extender.Prelude.Words.{u16, u32, shr}
use m_extender.Wire.{field}

-- struct CaptureFormat.
pub record CaptureFormat : Type 0 where
  pub rate : ℕ
  pub channels : ℕ
  pub bits : ℕ
  pub is_float : Bool

-- An arithmetic shift of a 32-bit pattern to the right, k below 32.
unfoldable pub sar : ℕ → ℕ → ℕ
sar x k = if leb 2147483648 x then u32 (shr x k + (4294967296 - shr 4294967296 k)) else shr x k

-- The 24-bit sample at a byte offset, sign-extended; `|` joins bits that do not overlap.
unfoldable pub sample_24 : List ℕ → ℕ → ℕ
sample_24 src at =
    let v = get_or src at 0 + 256 * get_or src (at + 1) 0 + 65536 * get_or src (at + 2) 0 in
    if leb 128 (get_or src (at + 2) 0) then v + 4278190080 else v

-- One sample at a byte offset as an int16_t, for each depth.
unfoldable pub sample : (List ℕ → ℕ) → CaptureFormat → List ℕ → ℕ → ℕ
unfolding sar sample_24 field
sample float_to_s16 fmt src at =
    if fmt.is_float
    then float_to_s16 (take 4 (drop at src))
    else if fmt.bits == 16
    then field at 2 src
    else if fmt.bits == 32
    then u16 (sar (field at 4 src) 16)
    else u16 (sar (sample_24 src at) 8)

-- Bytes of one sample; 0 stands for a depth that is not supported.
unfoldable pub width : CaptureFormat → ℕ
width fmt =
    if fmt.is_float
    then 4
    else if fmt.bits == 16
    then 2
    else if fmt.bits == 32
    then 4
    else if fmt.bits == 24
    then 3
    else 0

-- The loop over the frames from `i` on, with `n` frames left.
unfoldable pub convert_frames : (List ℕ → ℕ) → CaptureFormat → List ℕ → ℕ → ℕ → List ℕ
unfolding sample width
convert_frames float_to_s16 fmt src i zero = []
convert_frames float_to_s16 fmt src i (suc n) =
    let left = sample float_to_s16 fmt src (i * fmt.channels * width fmt) in
    let right =
      if ltb 1 fmt.channels
      then sample float_to_s16 fmt src ((i * fmt.channels + 1) * width fmt)
      else left in
    left ∷ right ∷ convert_frames float_to_s16 fmt src (i + 1) n

unfoldable pub convert_to_stereo : (List ℕ → ℕ) → CaptureFormat → List ℕ → ℕ → List ℕ
unfolding convert_frames
convert_to_stereo float_to_s16 fmt src frames =
    if width fmt == 0
    then replicate (2 * frames) 0
    else convert_frames float_to_s16 fmt src 0 frames
