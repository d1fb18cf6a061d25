-- ===== src/Examples/Encoders.antt =====
-- The QSV and AMF encoders below host/src/encode at concrete inputs.
use m_extender.Prelude.{
  ℕ, zero, suc, ◌+◌, ◌*◌, ◌<◌, ◌≡◌, ◌≢◌, inl, inr, refl, true, false, ◌&&◌, List, [], ◌∷◌, Option,
  some, none, arith, replicate, ap, subst, All, if◌then◌else◌, ◌==◌, if_false, length, get_or,
}
use m_extender.Encode.Color.{bgra_to_nv12}
use m_extender.Encode.Color.Range.{AllBytes, Video}
use m_extender.Encode.Buffers.{Texture, Direct3D, allocate}
use m_extender.Encode.Qsv.{
  QsvEncoder, Answers, Exports, Param, none_err, no_exports, start, resize, load_runtime, load_from,
  resolve_all, init_session, configure, initialized, allocate_buffers, start_ends,
}
use m_extender.Encode.Qsv.Frames.{encode, surface_of}
use m_extender.Encode.Qsv.Start.{Life}
use m_extender.Encode.Qsv.Life.{
  encoding, resizing, retargeting, requesting, apply_all, apply_all-Life,
}
use m_extender.Encode.Qsv.Picture.{NeedsSameSize, encodes, resize_frozen}
use m_extender.Encode.Qsv.Plane.{ReadsBytes, encode_colourless, start_fits}

abbrev white : List ℕ
white = replicate 16 255

-- Two textures of two pixels by two, a larger one, and a Direct3D that copies only between equal sizes.
abbrev small : Texture
small = record { w = 2; h = 2; pixels = white }

abbrev dark : Texture
dark = record { w = 2; h = 2; pixels = replicate 16 0 }

abbrev large : Texture
large = record { w = 4; h = 2; pixels = replicate 32 9 }

abbrev copied : Texture → Texture → Texture
copied t f = if t.w == f.w && t.h == f.h then f else t

abbrev d3d : Direct3D
d3d = record {
  context = true;
  create_staging = λ w h. some (record { w = w; h = h; pixels = [] });
  copy_resource = copied;
  map_read = λ t. some (4 * t.w, white);
}

d3d-NeedsSameSize : NeedsSameSize d3d
d3d-NeedsSameSize t f (inl n) = if_false (t.w == f.w && t.h == f.h) _ _ (ground (arith, n))
d3d-NeedsSameSize t f (inr n) = if_false (t.w == f.w && t.h == f.h) _ _ (ground (arith, n))

abbrev bytes_of : Option (ℕ × List ℕ) → List ℕ
bytes_of none = []
bytes_of (some r) = r.1

replicate-AllBytes : (n v : ℕ) → v < 256 → AllBytes (replicate n v)
replicate-AllBytes zero v l = tt
replicate-AllBytes (suc n) v l = (l, replicate-AllBytes n v l)

d3d-ReadsBytes : ReadsBytes d3d
d3d-ReadsBytes t row_pitch bgra e =
    subst AllBytes (ap bytes_of e) (replicate-AllBytes 16 255 (omega arith))

abbrev every_export : Exports
every_export = record {
  init_ex = true;
  close = true;
  enc_init = true;
  enc_close = true;
  enc_frame = true;
  sync_op = true;
  enc_reset = true;
}

-- The first candidate lacks a function, and the second has all.
abbrev works : Answers
works = record {
  library =
      λ i. if i == 0 then some (record every_export { sync_op = false }) else some every_export;
  init_ex = λ major. major == 0;
  enc_init = λ p. some p;
  malloc = λ bytes. true;
  frame_status = none_err;
  sync_point = true;
  sync_done = true;
  bitstream = 0 ∷ 0 ∷ 1 ∷ 101 ∷ 7 ∷ [];
  reset = λ p. true;
}

abbrev no_param : Param
no_param = record {
  target_kbps = 0;
  max_kbps = 0;
  buffer_size = 0;
  gop_size = 0;
  width = 0;
  height = 0;
  crop_w = 0;
  crop_h = 0;
  frame_rate = 0;
}

abbrev fresh : QsvEncoder
fresh = record {
  qsv_dll = false;
  session = false;
  configured = false;
  exports = no_exports;
  w = 0;
  h = 0;
  fps = 30;
  bitrate = 0;
  enc_w = 0;
  enc_h = 0;
  keyframe_requested = true;
  device = false;
  ctx = false;
  staging = none;
  nv12 = [];
  bs = 0;
  param = no_param;
  user_param = no_param;
}

apply_all-Life_example : Life (
    apply_all
      (encoding d3d works small ∷ requesting ∷ resizing works 4 2 ∷ retargeting works 900000 ∷ [])
      (start works 2 2 60 8000000 fresh).0)
apply_all-Life_example =
    apply_all-Life
      (encoding d3d works small ∷ requesting ∷ resizing works 4 2 ∷ retargeting works 900000 ∷ [])
      works 2 2 60 8000000 fresh (record { qsv_dll = refl; session = refl; configured = refl })

-- An encoder at two pixels by two that has encoded.
abbrev running : QsvEncoder
running = record fresh {
  qsv_dll = true;
  session = true;
  configured = true;
  exports = every_export;
  w = 2;
  h = 2;
  bitrate = 8000000;
  enc_w = 16;
  enc_h = 16;
  device = true;
  ctx = true;
  staging = some small;
  nv12 = replicate 384 128;
}

four-ne-two : small.w ≢ large.w
four-ne-two e = absurd (ground (arith, e))

resize_frozen_example :
    encodes d3d ((works, large) ∷ []) (resize works 4 2 running).0
    ≡ encodes d3d ((works, record large { pixels = [] }) ∷ []) (resize works 4 2 running).0
resize_frozen_example =
    resize_frozen d3d works 4 2 small running ((works, large, record large { pixels = [] }) ∷ [])
      d3d-NeedsSameSize refl four-ne-two ((refl, refl), tt)

encode_colourless_example :
    get_or (encode d3d works dark running).0.nv12 ((surface_of running).data_u + 0 * 16 + 1) 7
    ≡ get_or (replicate 384 128) ((surface_of running).data_u + 0 * 16 + 1) 7
encode_colourless_example =
    encode_colourless d3d works dark running 0 1 7 d3d-ReadsBytes refl (omega arith) (omega arith)

start_succeeds : (start works 2 2 60 8000000 fresh).1 ≡ true
unfolding start load_runtime load_from resolve_all init_session configure initialized
    allocate_buffers allocate start_ends
start_succeeds = refl

start_fits_example : All (Video 0 (length (start works 2 2 60 8000000 fresh).0.nv12)) (
    bgra_to_nv12 white 8
      (start works 2 2 60 8000000 fresh).0.enc_w
      (start works 2 2 60 8000000 fresh).0.w
      (start works 2 2 60 8000000 fresh).0.h)
start_fits_example =
    start_fits works 2 2 60 8000000 fresh white 8 start_succeeds refl (omega arith) (omega arith)
      (replicate-AllBytes 16 255 (omega arith))
