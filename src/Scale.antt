-- ===== src/Scale.antt =====
-- The scale step of the main loop in host/src/main.cpp, before a frame is encoded: the encoder is resized when the
-- step or the native size asks for it, and the frame is scaled on the GPU. The factors 1, 0.75, 0.5
-- and 0.375 and their products with a uint32_t are exact doubles, so the cast to uint32_t is the quotient of
-- a product.
pub mod Cases
pub mod Sizes
use m_extender.Prelude.{
  ℕ, zero, suc, ◌*◌, ◌/◌, Bool, true, false, not, ◌&&◌, ◌||◌, ltb, ◌==◌, if◌then◌else◌, List, [],
}
use m_extender.Prelude.Words.{clear_low}

-- kScaleSteps, as a fraction of eight.
abbrev pub scale_step : ℕ → ℕ
scale_step zero = 8
scale_step (suc zero) = 6
scale_step (suc (suc zero)) = 4
scale_step (suc (suc (suc i))) = 3

-- static_cast<uint32_t>(size * f) & ~1u.
unfoldable pub scaled : ℕ → ℕ → ℕ
scaled size idx = clear_low (size * scale_step idx / 8)

-- The variables of the loop that the step uses.
pub record Sizing : Type 0 where
  pub scale_idx : ℕ
  pub cur_w : ℕ
  pub cur_h : ℕ
  pub keyframe_pending : Bool

-- What is handed to the encoder: the captured texture, or the scaler's of some size.
pub data Source : Type 0 where
  native : Source
  downscaled : ℕ → ℕ → Source

-- Outcomes of the calls: enc->Resize at a size, and scaler.Scale to a size.
pub record Gpu : Type 0 where
  pub resize_ok : ℕ → ℕ → Bool
  pub scale_ok : ℕ → ℕ → Bool

unfoldable pub resize_to : Gpu → ℕ → ℕ → ℕ → ℕ → Sizing → Sizing
resize_to gpu cap_w cap_h nw nh s =
    if not (nw == s.cur_w) || not (nh == s.cur_h)
    then (if gpu.resize_ok nw nh
        then record s { cur_w = nw; cur_h = nh; keyframe_pending = true }
        else record s { scale_idx = 0; cur_w = cap_w; cur_h = cap_h })
    else s

unfoldable pub pick_source : Gpu → Sizing → Source
pick_source gpu s =
    if not (s.cur_w == 0) && (not (s.cur_h == 0) && gpu.scale_ok s.cur_w s.cur_h)
    then downscaled s.cur_w s.cur_h
    else native

unfoldable pub back_to_native : Gpu → ℕ → ℕ → Sizing → Sizing
back_to_native gpu cap_w cap_h s =
    if not (s.cur_w == cap_w) || not (s.cur_h == cap_h)
    then (if gpu.resize_ok cap_w cap_h
        then record s { cur_w = cap_w; cur_h = cap_h; keyframe_pending = true }
        else s)
    else s

unfoldable pub apply_scale : Bool → Gpu → ℕ → ℕ → Sizing → Sizing × Source
apply_scale adaptive gpu cap_w cap_h s =
    let t = resize_to gpu cap_w cap_h (scaled cap_w s.scale_idx) (scaled cap_h s.scale_idx) s in
    if adaptive && ltb 0 s.scale_idx
    then (t, pick_source gpu t)
    else if adaptive
    then (back_to_native gpu cap_w cap_h s, native)
    else (s, native)
