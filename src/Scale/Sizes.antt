-- ===== src/Scale/Sizes.antt =====
-- Sizes of the scaled frames, and what the encoder is told about them.
use m_extender.Prelude.{
  ℕ, zero, suc, ◌%◌, ◌≤◌, ◌<◌, ◌≡◌, ◌≢◌, ◌⊎◌, refl, true, false, arith, Bool-cases, inl, inr, ltb,
  ◌∙◌, if◌then◌else◌,
}
use m_extender.Scale.{
  scaled, Sizing, Source, native, downscaled, Gpu, resize_to, pick_source, back_to_native,
  apply_scale,
}

-- Every scaled dimension is even, as NV12 needs, no larger than the native one and than that of the
-- step before, and not zero when the native one is at least 6.
pub scaled_bounds :
    (size idx : ℕ)
    → (scaled size idx % 2 ≡ 0)
      × (scaled size idx ≤ size)
      × (scaled size (suc idx) ≤ scaled size idx)
      × (6 ≤ size → 0 < scaled size idx)
unfolding scaled
scaled_bounds size zero = (omega arith, omega arith, omega arith, λ h. omega arith)
scaled_bounds size (suc zero) = (omega arith, omega arith, omega arith, λ h. omega arith)
scaled_bounds size (suc (suc zero)) = (omega arith, omega arith, omega arith, λ h. omega arith)
scaled_bounds size (suc (suc (suc i))) = (omega arith, omega arith, omega arith, λ h. omega arith)

-- The size is set as asked, and a change of it asks for a keyframe.
abbrev pub Sized : Sizing → ℕ → ℕ → Sizing → Type 0
Sized s w h t =
    (t.scale_idx ≡ s.scale_idx)
    × (t.cur_w ≡ w)
    × (t.cur_h ≡ h)
    × (((t.cur_w ≡ s.cur_w) × (t.cur_h ≡ s.cur_h)) ⊎ (t.keyframe_pending ≡ true))

resize_to-Sized :
    (gpu : Gpu) (cap_w cap_h nw nh : ℕ) (s : Sizing)
    → gpu.resize_ok nw nh ≡ true
    → Sized s nw nh (resize_to gpu cap_w cap_h nw nh s)
unfolding resize_to
resize_to-Sized gpu cap_w cap_h nw nh s r = ground arith

back_to_native-Sized :
    (gpu : Gpu) (cap_w cap_h : ℕ) (s : Sizing)
    → gpu.resize_ok cap_w cap_h ≡ true
    → Sized s cap_w cap_h (back_to_native gpu cap_w cap_h s)
unfolding back_to_native
back_to_native-Sized gpu cap_w cap_h s r = ground arith

pick_source_lem :
    (gpu : Gpu) (t : Sizing)
    → 0 < t.cur_w
    → 0 < t.cur_h
    → pick_source gpu t
      ≡ (if gpu.scale_ok t.cur_w t.cur_h then downscaled t.cur_w t.cur_h else native)
unfolding pick_source
pick_source_lem gpu t w h = ground arith

-- What the main loop hands to the encoder.
abbrev pub Handed : ℕ → ℕ → Sizing → Sizing × Source → Type 0
Handed cap_w cap_h s (t, source) =
    (s.scale_idx ≡ 0 → Sized s cap_w cap_h t × (source ≡ native))
    × (s.scale_idx ≢ 0
        → Sized s (scaled cap_w s.scale_idx) (scaled cap_h s.scale_idx) t
          × (source ≡ downscaled t.cur_w t.cur_h))

-- When the GPU calls succeed, an adaptive step keeps the scale index and leaves the reported size at
-- what the index asks for, the scaled size or the native one; it hands the encoder a texture of just
-- that size; and it has a keyframe pending if it changed the size. The captured size is at least 6 each way.
pub apply_scale_lem :
    (gpu : Gpu) (cap_w cap_h : ℕ) (s : Sizing)
    → gpu.resize_ok (scaled cap_w s.scale_idx) (scaled cap_h s.scale_idx) ≡ true
    → gpu.resize_ok cap_w cap_h ≡ true
    → ((w h : ℕ) → gpu.scale_ok w h ≡ true)
    → 6 ≤ cap_w
    → 6 ≤ cap_h
    → Handed cap_w cap_h s (apply_scale true gpu cap_w cap_h s)
unfolding apply_scale
apply_scale_lem gpu cap_w cap_h s r n g w h = elim (Bool-cases (ltb 0 s.scale_idx)) [
  | inr off ↦
      rw off
        ((λ _. (back_to_native-Sized gpu cap_w cap_h s n, refl)), (λ i. absurd (i (ground arith))))
  | inl on ↦
      let nw = scaled cap_w s.scale_idx in
      let nh = scaled cap_h s.scale_idx in
      let t = resize_to gpu cap_w cap_h nw nh s in
      let z = resize_to-Sized gpu cap_w cap_h nw nh s r in
      let pw = (scaled_bounds cap_w s.scale_idx).3 w in
      let ph = (scaled_bounds cap_h s.scale_idx).3 h in
      let picked = pick_source_lem gpu t (omega (arith, z.1, pw)) (omega (arith, z.2, ph)) in
      rw on ((λ i. absurd (ground arith)), (λ _. (z, picked ∙ ground (arith, g t.cur_w t.cur_h))))
]

-- The fault: when the scaler fails at a size that the encoder was resized to, the encoder is handed
-- the native texture although the frame is reported, and the encoder set up, at the scaled size.
pub scaler_fault :
    (gpu : Gpu) (cap_w cap_h : ℕ) (s : Sizing)
    → s.scale_idx ≢ 0
    → ((w h : ℕ) → gpu.resize_ok w h ≡ true)
    → ((w h : ℕ) → gpu.scale_ok w h ≡ false)
    → let (t, source) = apply_scale true gpu cap_w cap_h s in
      (source ≡ native) × Sized s (scaled cap_w s.scale_idx) (scaled cap_h s.scale_idx) t
unfolding apply_scale
scaler_fault gpu cap_w cap_h s i r g =
    let on : ltb 0 s.scale_idx ≡ true = ground arith in
    let nw = scaled cap_w s.scale_idx in
    let nh = scaled cap_h s.scale_idx in
    let t = resize_to gpu cap_w cap_h nw nh s in
    rw on (
      unfold pick_source in ground (arith, g t.cur_w t.cur_h),
      resize_to-Sized gpu cap_w cap_h nw nh s (r nw nh),
    )
