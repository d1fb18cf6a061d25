-- ===== src/Encode/Amf/Frames.antt =====
-- Encode, ReadOutput and CopyFrameToNv12 of host/src/encode/amf.cpp: one frame from its texture to its NAL units.
use m_extender.Prelude.{
  ℕ, zero, suc, ◌+◌, ◌%◌, Bool, true, false, not, ◌&&◌, ◌||◌, List, [], ◌∷◌, ◌++◌, Option, none,
  some, length, get_or, set, ltb, if◌then◌else◌,
}
use m_extender.Payload.{EncodedFrame}
use m_extender.Nal.{split_annex_b, has_idr_slice}
use m_extender.Encode.Color.{bgra_to_nv12}
use m_extender.Encode.Buffers.{Texture, Direct3D, ensure_staging, read_back, write_all}
use m_extender.Encode.Amf.{AmfEncoder, Answers, Submission, accepted, input_full, refused}

-- ReadOutput from the bytes that QueryOutput gave, if it gave a buffer.
unfoldable pub read_output : Option (List ℕ) → Option EncodedFrame
unfolding split_annex_b has_idr_slice
read_output none = none
read_output (some bytes) =
    let nals = split_annex_b bytes in
    if ltb 0 (length bytes) && ltb 0 (length nals)
    then some record { keyframe = has_idr_slice nals; codec = 0; nals = nals; raw = [] }
    else none

-- The conversion of what was read, and its upload into the texture whose turn it is.
unfoldable pub converted : AmfEncoder → Option (ℕ × List ℕ) → AmfEncoder × Bool
unfolding write_all bgra_to_nv12
converted e none = (e, false)
converted e (some (row_pitch, bgra)) =
    let nv12 = write_all e.nv12 (bgra_to_nv12 bgra row_pitch e.enc_w e.w e.h) in
    (record e { nv12 = nv12; nv12_tex = set e.nv12_tex e.surface_index nv12 }, true)

unfoldable pub copy_frame_to_nv12 : Direct3D → Texture → AmfEncoder → AmfEncoder × Bool
unfolding converted ensure_staging read_back
copy_frame_to_nv12 d3d frame e =
    let dctx = e.dctx || d3d.context in
    let e1 = record e { device = e.device || not e.dctx; dctx = dctx } in
    let r = read_back d3d frame (ensure_staging d3d frame e.staging) in
    if not dctx then (e1, false) else converted (record e1 { staging = r.0 }) r.1

abbrev pub to_list : Option EncodedFrame → List EncodedFrame
to_list none = []
to_list (some f) = f ∷ []

-- What one try comes to, from the n-th answer, what is read if the queue is full, and the tries after it.
unfoldable pub after_try :
    Submission
    → ℕ
    → List EncodedFrame
    → Submission × ℕ × List EncodedFrame
    → Submission × ℕ × List EncodedFrame
after_try accepted n read rest = (accepted, n, [])
after_try refused n read rest = (refused, n, [])
after_try input_full n read (res, tries, dropped) = (res, tries, read ++ dropped)

-- The loop of at most `left` tries, from the n-th on: how the last one ended, how many were made before it, and the frames
-- that were read into `tmp` on the way.
unfoldable pub submit_loop : Answers → ℕ → ℕ → Submission × ℕ × List EncodedFrame
unfolding read_output after_try
submit_loop a zero n = (input_full, n, [])
submit_loop a (suc left) n =
    after_try (a.submit n) n (to_list (read_output (a.query n))) (submit_loop a left (n + 1))

-- A picture that AMF took: what its texture holds, and whether it was forced to be a keyframe.
pub record Picture : Type 0 where
  pub content : List ℕ
  pub force_idr : Bool

-- What AMF took, if anything, the frames that were read and thrown away, and the frame that Encode gave when it
-- returned true.
pub record Encoded : Type 0 where
  pub submitted : Option Picture
  pub dropped : List EncodedFrame
  pub frame : Option EncodedFrame

abbrev pub nothing : Encoded
nothing = record { submitted = none; dropped = []; frame = none }

unfoldable pub submitted_with : Answers → Picture → Submission × ℕ × List EncodedFrame → Encoded
unfolding read_output
submitted_with a p (accepted, tries, dropped) = record {
  submitted = some p;
  dropped = dropped;
  frame = read_output (a.query tries);
}
submitted_with a p (input_full, tries, dropped) = record {
  submitted = none;
  dropped = dropped;
  frame = none;
}
submitted_with a p (refused, tries, dropped) = record {
  submitted = none;
  dropped = dropped;
  frame = none;
}

-- The part of Encode after the copy, which made `c` of `e`.
unfoldable pub take_turn : Answers → AmfEncoder → AmfEncoder → AmfEncoder × Encoded
unfolding submit_loop submitted_with
take_turn a e c =
    let size = length e.surfaces in
    let surface = get_or e.surfaces (e.surface_index % size) 0 in
    let p : Picture = record {
      content = get_or c.nv12_tex surface [];
      force_idr = e.keyframe_requested;
    } in
    (
      record c { keyframe_requested = false; surface_index = (e.surface_index + 1) % size },
      submitted_with a p (submit_loop a 30 0),
    )

unfoldable pub encode : Direct3D → Answers → Texture → AmfEncoder → AmfEncoder × Encoded
unfolding copy_frame_to_nv12 take_turn
encode d3d a frame e =
    let c = copy_frame_to_nv12 d3d frame e in
    if not e.encoder then (e, nothing) else if not c.1 then (c.0, nothing) else take_turn a e c.0
