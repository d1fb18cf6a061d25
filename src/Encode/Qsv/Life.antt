-- ===== src/Encode/Qsv/Life.antt =====
-- Whatever is asked of QsvEncoder of host/src/encode/qsv.cpp, it is either running, with its library, or holds nothing.
use m_extender.Prelude.{ℕ, ◌≡◌, refl, inl, inr, Bool, List, [], ◌∷◌, arith, ap, ◌∙◌}
use m_extender.Encode.Buffers.{Texture, Direct3D}
use m_extender.Encode.Qsv.{
  QsvEncoder, Answers, unload_runtime, stop, start, resize, set_bitrate, request_keyframe,
}
use m_extender.Encode.Qsv.Frames.{converted, copy_frame_to_nv12, encode}
use m_extender.Encode.Qsv.Start.{required, Stopped, Told, Life, start-Told}

stop-Stopped : (e : QsvEncoder) → Stopped (stop e)
unfolding stop unload_runtime
stop-Stopped e = record { qsv_dll = refl; session = refl; configured = refl }

Told-Life : (r : QsvEncoder × Bool) → Told r → Life r.0
Told-Life r (inl (y, g)) = inl g
Told-Life r (inr (n, s)) = inr s

-- Two states of the encoder with the same library, session and configuration.
record Same (e f : QsvEncoder) : Type 0 where
  qsv_dll : f.qsv_dll ≡ e.qsv_dll
  exports : f.exports ≡ e.exports
  session : f.session ≡ e.session
  configured : f.configured ≡ e.configured

Same-Life : (e f : QsvEncoder) → Same e f → Life e → Life f
Same-Life e f s (inl g) = inl (record {
  qsv_dll = s.qsv_dll ∙ g.qsv_dll;
  exports = ap required s.exports ∙ g.exports;
  session = s.session ∙ g.session;
  configured = s.configured ∙ g.configured;
})
Same-Life e f s (inr g) = inr (record {
  qsv_dll = s.qsv_dll ∙ g.qsv_dll;
  session = s.session ∙ g.session;
  configured = s.configured ∙ g.configured;
})

encode-Same :
    (d3d : Direct3D) (a : Answers) (frame : Texture) (e : QsvEncoder)
    → Same e (encode d3d a frame e).0
unfolding encode copy_frame_to_nv12 converted
encode-Same d3d a frame e = record {
  qsv_dll = ground arith;
  exports = ground arith;
  session = ground arith;
  configured = ground arith;
}

resize-Life : (a : Answers) (w h : ℕ) (e : QsvEncoder) → Life e → Life (resize a w h e).0
unfolding resize
resize-Life a w h e l =
    let t = Told-Life _ (start-Told a w h e.fps e.bitrate (stop e) (stop-Stopped e)) in ground arith

-- The operations of an encoder that has been started.
pub data Operation : Type 0 where
  encoding : Direct3D → Answers → Texture → Operation
  resizing : Answers → ℕ → ℕ → Operation
  retargeting : Answers → ℕ → Operation
  requesting : Operation
  stopping : Operation

abbrev pub apply : Operation → QsvEncoder → QsvEncoder
apply (encoding d3d a frame) e = (encode d3d a frame e).0
apply (resizing a w h) e = (resize a w h e).0
apply (retargeting a bitrate) e = (set_bitrate a bitrate e).0
apply requesting e = request_keyframe e
apply stopping e = stop e

abbrev pub apply_all : List Operation → QsvEncoder → QsvEncoder
apply_all [] e = e
apply_all (o ∷ os) e = apply_all os (apply o e)

apply-Life : (o : Operation) (e : QsvEncoder) → Life e → Life (apply o e)
unfolding set_bitrate request_keyframe
apply-Life (encoding d3d a frame) e l = Same-Life e _ (encode-Same d3d a frame e) l
apply-Life (resizing a w h) e l = resize-Life a w h e l
apply-Life (retargeting a bitrate) e l =
    Same-Life e _
      (record {
        qsv_dll = ground arith;
        exports = ground arith;
        session = ground arith;
        configured = ground arith;
      })
      l
apply-Life requesting e l =
    Same-Life e _ (record { qsv_dll = refl; exports = refl; session = refl; configured = refl }) l
apply-Life stopping e l = inr (stop-Stopped e)

-- After Start on an encoder that holds nothing, and any sequence of Encode, Resize, SetBitrate, RequestKeyframe and
-- Stop, whatever the libraries answer to each: the encoder is running or holds nothing.
pub apply_all-Life :
    (os : List Operation) (a : Answers) (w h fps bitrate : ℕ) (e : QsvEncoder)
    → Stopped e
    → Life (apply_all os (start a w h fps bitrate e).0)
apply_all-Life os a w h fps bitrate e s = go os _ (Told-Life _ (start-Told a w h fps bitrate e s))
  where
    go : (os : List Operation) (e : QsvEncoder) → Life e → Life (apply_all os e)
    go [] e l = l
    go (o ∷ os) e l = go os (apply o e) (apply-Life o e l)
