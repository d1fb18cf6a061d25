-- ===== src/Encode/Null.antt =====
-- NullEncoder of host/src/encode/encoder.h and encoder.cpp: the raw frames of the bring-up path.
use m_extender.Prelude.{
  ℕ, ◌*◌, ◌≤◌, ◌≡◌, refl, Bool, true, false, List, [], Option, none, some, take, length,
  length-take, arith, ◌∙◌,
}
use m_extender.Prelude.Words.{u64}
use m_extender.Payload.{EncodedFrame}
use m_extender.Encode.Buffers.{Texture, Direct3D, ensure_staging, read_back}

pub record NullEncoder : Type 0 where
  pub staging : Option Texture
  pub w : ℕ
  pub h : ℕ

unfoldable pub start : ℕ → ℕ → NullEncoder → NullEncoder × Bool
start w h e = (record e { w = w; h = h }, true)

unfoldable pub resize : ℕ → ℕ → NullEncoder → NullEncoder × Bool
resize w h e = (record e { w = w; h = h; staging = none }, true)

-- h_ rows of what Map gave; bytes beyond what is mapped are left out.
unfoldable pub raw_frame : ℕ → Option (ℕ × List ℕ) → Option EncodedFrame
raw_frame h none = none
raw_frame h (some (row_pitch, pixels)) =
    some record { keyframe = false; codec = 0; nals = []; raw = take (u64 (h * row_pitch)) pixels }

unfoldable pub encode : Direct3D → Texture → NullEncoder → NullEncoder × Option EncodedFrame
unfolding ensure_staging read_back raw_frame
encode d3d frame e =
    let r = read_back d3d frame (ensure_staging d3d frame e.staging) in
    (record e { staging = r.0 }, raw_frame e.h r.1)

-- After Resize the staging texture is made again from the next frame: whatever texture there was, the raw frame has the
-- rows of that frame's copy in a texture of its own size, h of them, as many bytes as these have.
pub resize-encode :
    (d3d : Direct3D) (w h row_pitch : ℕ) (frame new : Texture) (pixels : List ℕ) (e : NullEncoder)
    → d3d.create_staging frame.w frame.h ≡ some new
    → d3d.map_read (d3d.copy_resource new frame) ≡ some (row_pitch, pixels)
    → h * row_pitch ≤ length pixels
    → length pixels ≤ 4294967295
    → let r = (encode d3d frame (resize w h e).0).1 in
      (r
        ≡ some record { keyframe = false; codec = 0; nals = []; raw = take (h * row_pitch) pixels })
      × (length (take (h * row_pitch) pixels) ≡ h * row_pitch)
unfolding encode resize ensure_staging read_back raw_frame
resize-encode d3d w h row_pitch frame new pixels e c m l b =
    let u : u64 (h * row_pitch) ≡ h * row_pitch = omega arith in
    (rw (c, read_back, m, raw_frame, u) refl, length-take (h * row_pitch) pixels ∙ omega arith)
