-- ===== src/Encode/Amf/Granted.antt =====
-- When Resize of host/src/encode/amf.cpp succeeds.
use native.Mathlib.Nat.{mul-le-mul_right}
use m_extender.Prelude.{
  ℕ, zero, suc, ◌+◌, ◌*◌, ◌/◌, ◌≤◌, ◌<◌, ◌≡◌, ◌≢◌, refl, Bool, true, false, not, ◌&&◌, [], some,
  arith, ◌==◌, if_cases, if◌then◌else◌,
}
use m_extender.Prelude.Words.{u64}
use m_extender.Encode.Buffers.{round_up_16, allocate}
use m_extender.Encode.Buffers.Fit.{round_up_16_lem}
use m_extender.Encode.Amf.{
  AmfEncoder, Answers, surface_pool, stop, open_encoder, allocate_frame, push_surface, push_texture,
  fill_pool, or_stop, start, resize,
}
use m_extender.Encode.Amf.Start.{Running}

-- The buffer of a size that the encoder can have is not empty.
frame_bytes :
    (w k : ℕ)
    → 0 < w
    → w ≤ 65520
    → 0 < k
    → k ≤ 65520
    → not (u64 (round_up_16 w * round_up_16 k * 3) / 2 == 0) ≡ true
frame_bytes w k w0 w1 k0 k1 =
    let (wl, wu) = round_up_16_lem w (omega arith) in
    let (kl, ku) = round_up_16_lem k (omega arith) in
    let low : 1 * round_up_16 k ≤ round_up_16 w * round_up_16 k =
      mul-le-mul_right (round_up_16 k) (omega arith) in
    let high : round_up_16 w * round_up_16 k ≤ 65535 * round_up_16 k =
      mul-le-mul_right (round_up_16 k) (omega arith) in
    let filled : u64 (round_up_16 w * round_up_16 k * 3) / 2 ≢ 0 =
      λ z. omega (arith, z, low, high, kl, ku) in
    ground (arith, filled)

-- All that the libraries are asked for is given.
pub record Grants (a : Answers) : Type 0 where
  pub load : a.load ≡ true
  pub amf_init : a.amf_init ≡ true
  pub create_context : a.create_context ≡ true
  pub init_dx11 : a.init_dx11 ≡ true
  pub create_component : a.create_component ≡ true
  pub encoder_init : a.encoder_init ≡ true
  pub malloc : (n : ℕ) → a.malloc n ≡ true
  pub create_texture : (i : ℕ) → a.create_texture i ≡ some []
  pub wrap_texture : (i : ℕ) → a.wrap_texture i ≡ true

fill_pool-granted :
    (a : Answers) (n i : ℕ) (e : AmfEncoder) → Grants a → (fill_pool a n i e).1 ≡ true
unfolding fill_pool push_texture push_surface
fill_pool-granted a zero i e g = refl
fill_pool-granted a (suc n) i e g =
    rw (g.create_texture i, g.wrap_texture i) (fill_pool-granted a n (i + 1) _ g)

or_stop-succeeds :
    (r : AmfEncoder × Bool) (next : AmfEncoder → AmfEncoder × Bool)
    → r.1 ≡ true
    → (next r.0).1 ≡ true
    → (or_stop r next).1 ≡ true
unfolding or_stop
or_stop-succeeds (e, true) next y n = n
or_stop-succeeds (e, false) next y n = absurd (ground (arith, y))

start-granted :
    (a : Answers) (w h fps bitrate : ℕ) (e : AmfEncoder)
    → Grants a
    → not (u64 (round_up_16 w * round_up_16 h * 3) / 2 == 0) ≡ true
    → e.device ≡ true
    → (start a w h fps bitrate e).1 ≡ true
unfolding start open_encoder allocate_frame allocate
start-granted a w h fps bitrate e g size device =
    let e0 = record e {
      w = w;
      h = h;
      fps = if fps == 0 then 30 else fps;
      bitrate = bitrate;
      keyframe_requested = true;
      enc_w = round_up_16 w;
      enc_h = round_up_16 h;
    } in
    let e1 = (open_encoder a e0).0 in
    let e2 = (allocate_frame a e1).0 in
    let opened : (open_encoder a e0).1 ≡ true =
      rw (g.amf_init, g.create_context, g.init_dx11, g.create_component) g.encoder_init in
    let allocated : (allocate_frame a e1).1 ≡ true =
      rw (size, g.malloc (u64 (round_up_16 w * round_up_16 h * 3) / 2)) refl in
    let filled = fill_pool-granted a surface_pool 0 e2 g in
    if_cases (λ (r : AmfEncoder × Bool). r.1 ≡ true) (e.device && a.load) _ _
      (λ y. or_stop-succeeds (open_encoder a e0) _ opened (
        or_stop-succeeds (allocate_frame a e1) _ allocated
          (or_stop-succeeds (fill_pool a surface_pool 0 e2) _ filled refl)))
      (λ n. absurd (ground (arith, n, device, g.load)))

-- A resize of an encoder that runs succeeds when all is granted, at every size that 16-bit fields can have.
pub resize-granted :
    (a : Answers) (w h : ℕ) (e : AmfEncoder)
    → Grants a
    → 0 < w
    → w ≤ 65520
    → 0 < h
    → h ≤ 65520
    → Running e
    → (resize a w h e).1 ≡ true
unfolding resize stop
resize-granted a w h e g w0 w1 h0 h1 run =
    if_cases (λ (r : AmfEncoder × Bool). r.1 ≡ true) e.encoder _ _
      (λ y. start-granted a w h e.fps e.bitrate (stop e) g (frame_bytes w h w0 w1 h0 h1) run.device)
      (λ n. absurd (ground (arith, n, run.encoder)))
