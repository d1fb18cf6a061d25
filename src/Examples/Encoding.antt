-- ===== src/Examples/Encoding.antt =====
-- Encoders in the main loop of host/src/main.cpp at concrete inputs: NVENC as the scale goes down, and AMF.
use m_extender.Prelude.{ℕ, ◌≡◌, ◌⊎◌, refl, true, false, [], ◌∷◌, some, All, arith}
use m_extender.Encode.Amf.{AmfEncoder, Answers}
use m_extender.Encode.Amf.Granted.{Grants, resize-granted}
use m_extender.Encode.Buffers.{Direct3D, Texture}
use m_extender.Scale.{Source, native, downscaled}
use m_extender.Session.Loop.{Host}
use m_extender.Session.Encoder.{resize_call, encoder_run}
use m_extender.Session.Encoder.Frozen.{nvenc, IsAudio, all_audio, nvenc_frozen}
use m_extender.Session.Encoder.Pooled.{amf_encoder, amf-Sizes, RunsAt}
use m_extender.Session.Encoder.Size.{AllFit, Works, encoder_run-AllFit}
use m_extender.Examples.Gpu
use m_extender.Examples.Input.{encoding, granted}
use m_extender.Examples.Main.{whole}
use m_extender.Examples.Net.{Pipe, pipe}
use m_extender.Examples.Session.{begun, busy}

-- The turn after the controller has moved to the scale of three quarters.
abbrev scaling : Host Pipe ℕ
scaling = record (begun.host) {
  sizing = record { scale_idx = 1; cur_w = 1920; cur_h = 1080; keyframe_pending = false };
}

scaling_call : resize_call true 1920 1080 scaling.sizing ≡ some (1440, 810)
unfolding resize_call m_extender.Scale.scaled
scaling_call = refl

nvenc_frozen_example :
    let q =
      encoder_run nvenc pipe whole begun.config
        ((granted, busy) ∷ (granted, busy) ∷ [])
        (encoding, scaling) in
    All IsAudio q.sent
    × ((q.going ≡ false)
        ⊎ (q.sent ≡ all_audio pipe whole begun.config ((granted, busy) ∷ (granted, busy) ∷ [])))
nvenc_frozen_example =
    nvenc_frozen pipe whole begun.config granted busy ((granted, busy) ∷ []) encoding scaling 1440
      810 refl refl refl refl scaling_call (refl, (refl, tt))

-- The texture of each source, and an AMF encoder that runs at the native size.
abbrev texture : Source → Texture
texture native = record { w = 1920; h = 1080; pixels = 7 ∷ [] }
texture (downscaled w k) = record { w = w; h = k; pixels = 9 ∷ [] }

abbrev amf : AmfEncoder
amf = record (Gpu.running) { w = 1920; h = 1080; enc_w = 1920; enc_h = 1088 }

amf-RunsAt : RunsAt amf (1920, 1080)
amf-RunsAt = (
  record {
    amf_dll = refl;
    context = refl;
    encoder = refl;
    device = refl;
    surface_index = omega arith;
    surfaces = refl;
    nv12_tex = refl;
  },
  refl,
)

busy-Grants : Grants Gpu.busy
busy-Grants = record {
  load = refl;
  amf_init = refl;
  create_context = refl;
  init_dx11 = refl;
  create_component = refl;
  encoder_init = refl;
  malloc = λ n. refl;
  create_texture = λ i. refl;
  wrap_texture = λ i. refl;
}

abbrev answers : Direct3D × (Source → Texture) × Answers
answers = (Gpu.d3d, texture, Gpu.busy)

amf-Works : Works pipe whole begun.config amf_encoder amf-Sizes (answers, busy)
amf-Works = (
  (λ w k e p within at.
      resize-granted Gpu.busy w k e busy-Grants within.0 (omega (arith, within.1)) within.2
        (omega (arith, within.3)) at.0),
  (λ w k. refl),
)

encoder_run-AllFit_example :
    AllFit pipe whole begun.config amf_encoder amf-Sizes
      ((answers, busy) ∷ (answers, busy) ∷ [])
      (amf, scaling)
encoder_run-AllFit_example =
    encoder_run-AllFit pipe whole begun.config amf_encoder amf-Sizes
      ((answers, busy) ∷ (answers, busy) ∷ []) amf scaling refl (omega arith) (omega arith)
      (amf-Works, (amf-Works, tt)) amf-RunsAt
