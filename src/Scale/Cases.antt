-- ===== src/Scale/Cases.antt =====
-- A property of the variables of the scale step in host/src/main.cpp holds after it when it holds on each branch.
use m_extender.Prelude.{ℕ, ◌≡◌, Bool, true, false, not, ◌&&◌, ◌||◌, Bool-cases, inl, inr, ltb, ◌==◌}
use m_extender.Scale.{Sizing, Gpu, scaled, resize_to, back_to_native, apply_scale}

module _ (P : Sizing → Type 0) (gpu : Gpu) (cap_w cap_h : ℕ) (s : Sizing) (as_it_was : P s) where
  -- What a resize that succeeded leaves.
  abbrev pub Resized : ℕ → ℕ → Type 0
  Resized w h =
      gpu.resize_ok w h ≡ true → P (record s { cur_w = w; cur_h = h; keyframe_pending = true })

  -- What a step back from a resize that failed leaves.
  abbrev pub Failed : ℕ → ℕ → Type 0
  Failed w h =
      gpu.resize_ok w h ≡ false → P (record s { scale_idx = 0; cur_w = cap_w; cur_h = cap_h })

  resize_to-cases :
      (nw nh : ℕ) → Resized nw nh → Failed nw nh → P (resize_to gpu cap_w cap_h nw nh s)
  unfolding resize_to
  resize_to-cases nw nh resized failed =
      elim (Bool-cases (not (nw == s.cur_w) || not (nh == s.cur_h))) [
        | inr same ↦ rw same as_it_was
        | inl new ↦ rw new (elim (Bool-cases (gpu.resize_ok nw nh)) [
          | inl ok ↦ rw ok (resized ok)
          | inr bad ↦ rw bad (failed bad)
        ])
      ]

  back_to_native-cases : Resized cap_w cap_h → P (back_to_native gpu cap_w cap_h s)
  unfolding back_to_native
  back_to_native-cases resized =
      elim (Bool-cases (not (s.cur_w == cap_w) || not (s.cur_h == cap_h))) [
        | inr same ↦ rw same as_it_was
        | inl new ↦ rw new (elim (Bool-cases (gpu.resize_ok cap_w cap_h)) [
          | inl ok ↦ rw ok (resized ok)
          | inr bad ↦ rw bad as_it_was
        ])
      ]

  pub apply_scale-cases :
      (adaptive : Bool)
      → Resized (scaled cap_w s.scale_idx) (scaled cap_h s.scale_idx)
      → Failed (scaled cap_w s.scale_idx) (scaled cap_h s.scale_idx)
      → Resized cap_w cap_h
      → P (apply_scale adaptive gpu cap_w cap_h s).0
  unfolding apply_scale
  apply_scale-cases adaptive resized failed native_again =
      elim (Bool-cases (adaptive && ltb 0 s.scale_idx)) [
        | inl on ↦
            rw on
              (resize_to-cases (scaled cap_w s.scale_idx) (scaled cap_h s.scale_idx) resized failed)
        | inr off ↦ rw off (elim (Bool-cases adaptive) [
          | inl a ↦ rw a (back_to_native-cases native_again)
          | inr a ↦ rw a as_it_was
        ])
      ]
