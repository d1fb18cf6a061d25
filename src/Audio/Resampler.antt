-- ===== src/Audio/Resampler.antt =====
-- StereoResampler of host/src/audio/capture.cpp. The doubles are read as exact fractions over the input rate: the phase
-- is a number of `rate`ths of an input frame, and `ratio_` is `target` of them. Samples are their
-- values. A negative phase is cast to size_t for an index, which C++ leaves undefined: `none`.
pub mod Phase
use m_extender.Prelude.{
  ℕ, zero, suc, ◌+◌, ◌-◌, ◌*◌, ◌/◌, ◌%◌, List, [], ◌∷◌, Option, none, some, length, get_or, ltb,
  if◌then◌else◌,
}
use m_extender.Prelude.Int.{ℤ, pos, negsuc, ◌+ℤ◌, ◌-ℤ◌, ◌*ℤ◌, sub_ℕ, ltb_ℤ, tdiv}

-- LerpS16(a, b, frac / rate).
unfoldable pub lerp_s16 : ℕ → ℤ → ℤ → ℕ → ℤ
lerp_s16 rate a b frac =
    let v = tdiv (a *ℤ pos rate +ℤ (b -ℤ a) *ℤ pos frac) rate in
    if ltb_ℤ (pos 32767) v then pos 32767 else if ltb_ℤ v (negsuc 32767) then negsuc 32767 else v

abbrev silence : ℤ × ℤ
silence = (pos 0, pos 0)

unfoldable pub lerp_frame : ℕ → List (ℤ × ℤ) → ℕ → ℤ × ℤ
unfolding lerp_s16
lerp_frame rate input phase =
    let i0 = phase / rate in
    let i1 = if ltb (i0 + 1) (length input) then i0 + 1 else i0 in
    let frac = phase % rate in
    let a = get_or input i0 silence in
    let b = get_or input i1 silence in (lerp_s16 rate a.0 b.0 frac, lerp_s16 rate a.1 b.1 frac)

-- Puts a frame before what the later rounds wrote.
abbrev pub put_frame : ℤ × ℤ → Option (List (ℤ × ℤ) × ℤ) → Option (List (ℤ × ℤ) × ℤ)
put_frame x none = none
put_frame x (some (out, phase)) = some (x ∷ out, phase)

-- The loop, with `cap` frames of room left.
unfoldable pub resample_loop : ℕ → ℕ → List (ℤ × ℤ) → ℕ → ℤ → Option (List (ℤ × ℤ) × ℤ)
unfolding lerp_frame
resample_loop target rate input zero phase = some ([], phase)
resample_loop target rate input (suc cap) (negsuc n) = none
resample_loop target rate input (suc cap) (pos p) =
    let rest =
      put_frame (lerp_frame rate input p)
        (resample_loop target rate input cap (pos (p + target))) in
    if ltb p (length input * rate) then rest else some ([], pos p)

-- `phase_ -= frames`.
unfoldable pub next_packet : ℕ → Option (List (ℤ × ℤ) × ℤ) → Option (List (ℤ × ℤ) × ℤ)
next_packet span none = none
next_packet span (some (out, phase)) = some (out, phase -ℤ pos span)

unfoldable pub process : ℕ → ℕ → List (ℤ × ℤ) → ℕ → ℤ → Option (List (ℤ × ℤ) × ℤ)
unfolding resample_loop next_packet
process target rate input out_cap phase =
    next_packet (length input * rate) (resample_loop target rate input out_cap phase)

-- The room that CaptureLoop gives: frame_count * ratio + 8.
unfoldable pub room : ℕ → ℕ → ℕ → ℕ
room target rate frames = frames * target / rate + 8
