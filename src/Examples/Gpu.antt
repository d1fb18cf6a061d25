-- ===== src/Examples/Gpu.antt =====
-- The AMF encoder of host/src/encode/amf.cpp and the scaler of host/src/util/scaler.cpp at concrete inputs.
use m_extender.Prelude.{
  ℕ, zero, suc, ◌<◌, ◌≡◌, inr, refl, true, false, [], ◌∷◌, some, none, arith, replicate,
  if◌then◌else◌, ◌==◌,
}
use m_extender.Encode.Buffers.{Texture, Direct3D, ensure_staging, read_back}
use m_extender.Encode.Amf.{AmfEncoder, Answers, accepted, input_full, start}
use m_extender.Encode.Amf.Frames.{converted, copy_frame_to_nv12, read_output, encode}
use m_extender.Encode.Amf.Start.{Running, Stopped, Life}
use m_extender.Encode.Amf.Life.{
  encoding, resizing, retargeting, handing_device, operate_all, operate_all-Life,
}
use m_extender.Encode.Amf.Pool.{outputs, encode_accepted}
use m_extender.Scaler.{GpuScaler, Drawn, scale, vertex_pos, vertex_uv}
use m_extender.Scaler.Target.{Fresh, Right, scale-Right}

abbrev pub frame : Texture
frame = record { w = 2; h = 2; pixels = replicate 16 255 }

abbrev pub d3d : Direct3D
d3d = record {
  context = true;
  create_staging = λ w h. some (record { w = w; h = h; pixels = [] });
  copy_resource = λ t f. f;
  map_read = λ t. some (8, t.pixels);
}

-- The queue is full for two tries; a question for output gives an IDR unit.
abbrev pub busy : Answers
busy = record {
  load = true;
  amf_init = true;
  create_context = true;
  init_dx11 = true;
  create_component = true;
  encoder_init = true;
  malloc = λ bytes. true;
  create_texture = λ i. some [];
  wrap_texture = λ i. true;
  set_target = true;
  set_peak = true;
  submit = λ n. if n == 2 then accepted else input_full;
  query = λ n. some (0 ∷ 0 ∷ 1 ∷ 101 ∷ n ∷ []);
}

abbrev pub stopped : AmfEncoder
stopped = record {
  amf_dll = false;
  factory = false;
  context = false;
  encoder = false;
  surfaces = [];
  surface_index = 0;
  nv12_tex = [];
  device = true;
  dctx = false;
  staging = none;
  nv12 = [];
  w = 0;
  h = 0;
  fps = 30;
  bitrate = 0;
  enc_w = 0;
  enc_h = 0;
  keyframe_requested = true;
  target_rate = 0;
  peak_rate = 0;
}

stopped-Stopped : Stopped stopped
stopped-Stopped = record {
  amf_dll = refl;
  context = refl;
  encoder = refl;
  surface_index = omega arith;
  surfaces = refl;
  nv12_tex = refl;
}

operate_all-Life_example :
    let f =
      operate_all
        (encoding d3d busy frame
          ∷ handing_device
          ∷ resizing busy 4 2
          ∷ retargeting busy 900000
          ∷ [])
        (start busy 2 2 60 8000000 stopped).0 in
    Life f × (f.surface_index < 3)
operate_all-Life_example =
    operate_all-Life
      (encoding d3d busy frame ∷ handing_device ∷ resizing busy 4 2 ∷ retargeting busy 900000 ∷ [])
      busy 2 2 60 8000000 stopped stopped-Stopped

abbrev pub running : AmfEncoder
running = record stopped {
  amf_dll = true;
  factory = true;
  context = true;
  encoder = true;
  surfaces = 0 ∷ 1 ∷ 2 ∷ [];
  surface_index = 2;
  nv12_tex = [] ∷ [] ∷ [] ∷ [];
  nv12 = replicate 384 128;
  w = 2;
  h = 2;
  enc_w = 16;
  enc_h = 16;
}

running-Running : Running running
running-Running = record {
  amf_dll = refl;
  context = refl;
  encoder = refl;
  device = refl;
  surface_index = omega arith;
  surfaces = refl;
  nv12_tex = refl;
}

copies : (copy_frame_to_nv12 d3d frame running).1 ≡ true
unfolding copy_frame_to_nv12 converted ensure_staging read_back
copies = refl

full_twice : (j : ℕ) → j < 2 → busy.submit j ≡ input_full
full_twice zero l = refl
full_twice (suc zero) l = refl
full_twice (suc (suc j)) l = absurd (omega arith)

encode_accepted_example : (encode d3d busy frame running).1 ≡ record {
  submitted =
      some record { content = (copy_frame_to_nv12 d3d frame running).0.nv12; force_idr = true };
  dropped = outputs busy 0 2;
  frame = read_output (busy.query 2);
}
encode_accepted_example =
    encode_accepted d3d busy frame running 2 running-Running copies (omega arith) full_twice refl

abbrev all_well : m_extender.Scaler.Answers
all_well = record {
  context = true;
  compile_vs = true;
  compile_ps = true;
  create_vs = true;
  create_ps = true;
  create_sampler = true;
  create_texture = true;
  create_rtv = true;
  create_srv = true;
}

abbrev scaler : GpuScaler
scaler = record {
  device = true;
  ctx = true;
  vs = true;
  ps = true;
  sampler = true;
  dst = some (960, 540);
  rtv = true;
  dst_w = 960;
  dst_h = 540;
}

scale-Right_example :
    Fresh (scale all_well true 1440 810 scaler).0
    × Right 1440 810 (scale all_well true 1440 810 scaler).1
scale-Right_example = scale-Right all_well true 1440 810 scaler refl (inr (refl, refl))
