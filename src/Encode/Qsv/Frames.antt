-- ===== src/Encode/Qsv/Frames.antt =====
-- Encode and CopyFrameToNv12 of host/src/encode/qsv.cpp: one frame from its texture to its NAL units.
use m_extender.Prelude.{
  ℕ, ◌*◌, Bool, true, false, not, ◌&&◌, ◌||◌, List, [], Option, none, some, length, ltb,
  if◌then◌else◌,
}
use m_extender.Prelude.Words.{u16}
use m_extender.Payload.{EncodedFrame}
use m_extender.Nal.{split_annex_b, has_idr_slice}
use m_extender.Encode.Color.{bgra_to_nv12}
use m_extender.Encode.Buffers.{Texture, Direct3D, ensure_staging, read_back, write_all}
use m_extender.Encode.Qsv.{
  QsvEncoder, Answers, Param, MfxStatus, none_err, more_data, in_execution, failed,
}

-- The conversion of what was read into the NV12 buffer.
unfoldable pub converted : QsvEncoder → Option (ℕ × List ℕ) → QsvEncoder × Bool
unfolding write_all bgra_to_nv12
converted e none = (e, false)
converted e (some (row_pitch, bgra)) =
    (record e { nv12 = write_all e.nv12 (bgra_to_nv12 bgra row_pitch e.enc_w e.w e.h) }, true)

unfoldable pub copy_frame_to_nv12 : Direct3D → Texture → QsvEncoder → QsvEncoder × Bool
unfolding converted ensure_staging read_back
copy_frame_to_nv12 d3d frame e =
    let ctx = if e.device then e.ctx else d3d.context in
    let e1 = record e { device = true; ctx = ctx } in
    let r = read_back d3d frame (ensure_staging d3d frame e.staging) in
    if not e.device && not ctx then (e1, false) else converted (record e1 { staging = r.0 }) r.1

-- The surface and the control of one submission; `data_u` is the offset of Data.U in the buffer.
pub record Surface : Type 0 where
  pub info : Param
  pub nv12 : List ℕ
  pub data_u : ℕ
  pub pitch : ℕ
  pub force_idr : Bool

-- What Encode submitted, if anything, and the frame it gave when it returned true.
pub record Encoded : Type 0 where
  pub submitted : Option Surface
  pub frame : Option EncodedFrame

unfoldable pub surface_of : QsvEncoder → Surface
surface_of e = record {
  info = e.param;
  nv12 = e.nv12;
  data_u = e.enc_w * e.enc_h;
  pitch = u16 e.enc_w;
  force_idr = e.keyframe_requested;
}

unfoldable pub is_accepted : MfxStatus → Bool
is_accepted none_err = true
is_accepted more_data = false
is_accepted in_execution = true
is_accepted failed = false

-- What comes out after the submission.
unfoldable pub output : Answers → Option EncodedFrame
unfolding is_accepted split_annex_b has_idr_slice
output a =
    let nals = split_annex_b a.bitstream in
    if is_accepted a.frame_status
      && (not a.sync_point || a.sync_done)
      && ltb 0 (length a.bitstream)
      && ltb 0 (length nals)
    then some record { keyframe = has_idr_slice nals; codec = 0; nals = nals; raw = [] }
    else none

unfoldable pub encode : Direct3D → Answers → Texture → QsvEncoder → QsvEncoder × Encoded
unfolding copy_frame_to_nv12 surface_of output
encode d3d a frame e =
    let c = copy_frame_to_nv12 d3d frame e in
    if not e.session || not e.configured
    then (e, record { submitted = none; frame = none })
    else if not c.1
    then (c.0, record { submitted = none; frame = none })
    else (
      record c.0 { keyframe_requested = false },
      record { submitted = some (surface_of c.0); frame = output a },
    )
