-- ===== src/Encode/Amf/Life.antt =====
-- Whatever is asked of AmfEncoder of host/src/encode/amf.cpp, it is either running, with its whole pool, or holds nothing.

use m_extender.Prelude.{
  ℕ, ◌<◌, ◌≡◌, refl, inl, inr, Bool, true, not, ◌||◌, List, [], ◌∷◌, Option, none, some, length,
  length-set, arith, ap, ◌∙◌, if_cases,
}
use m_extender.Encode.Buffers.{Texture, Direct3D, ensure_staging, read_back}
use m_extender.Encode.Amf.{
  AmfEncoder, Answers, stop, start, request_keyframe, resize, set_bitrate, set_d3d11_device,
}
use m_extender.Encode.Amf.Frames.{Encoded, converted, copy_frame_to_nv12, take_turn, encode}
use m_extender.Encode.Amf.Start.{Running, Stopped, Told, Life, stop-Stopped, start-Told}

-- Two states with the same runtime and the same pool.
record Same (e f : AmfEncoder) : Type 0 where
  amf_dll : f.amf_dll ≡ e.amf_dll
  context : f.context ≡ e.context
  encoder : f.encoder ≡ e.encoder
  device : e.device ≡ true → f.device ≡ true
  surface_index : f.surface_index ≡ e.surface_index
  surfaces : f.surfaces ≡ e.surfaces
  nv12_tex : (f.nv12_tex ≡ e.nv12_tex)

Same-Life : (e f : AmfEncoder) → Same e f → Life e → Life f
Same-Life e f s (inl g) = inl (record {
  amf_dll = s.amf_dll ∙ g.amf_dll;
  context = s.context ∙ g.context;
  encoder = s.encoder ∙ g.encoder;
  device = s.device g.device;
  surface_index = rw s.surface_index g.surface_index;
  surfaces = s.surfaces ∙ g.surfaces;
  nv12_tex = ap length s.nv12_tex ∙ g.nv12_tex;
})
Same-Life e f s (inr g) = inr (record {
  amf_dll = s.amf_dll ∙ g.amf_dll;
  context = s.context ∙ g.context;
  encoder = s.encoder ∙ g.encoder;
  surface_index = rw s.surface_index g.surface_index;
  surfaces = s.surfaces ∙ g.surfaces;
  nv12_tex = s.nv12_tex ∙ g.nv12_tex;
})

Told-Life : (r : AmfEncoder × Bool) → Told r → Life r.0
Told-Life r (inl (y, g)) = inl g
Told-Life r (inr (n, s)) = inr s

Life-index : (e : AmfEncoder) → Life e → e.surface_index < 3
Life-index e (inl g) = g.surface_index
Life-index e (inr s) = s.surface_index

encode-Stopped :
    (d3d : Direct3D) (a : Answers) (frame : Texture) (e : AmfEncoder)
    → Stopped e
    → Stopped (encode d3d a frame e).0
unfolding encode
encode-Stopped d3d a frame e s =
    if_cases (λ (r : AmfEncoder × Encoded). Stopped r.0) (not e.encoder) _ _ (λ y. s)
      (λ n. absurd (ground (arith, n, s.encoder)))

resize-Life : (a : Answers) (w h : ℕ) (e : AmfEncoder) → Life e → Life (resize a w h e).0
unfolding resize
resize-Life a w h e l =
    if_cases (λ (r : AmfEncoder × Bool). Life r.0) e.encoder _ _
      (λ y.
        Told-Life _ (start-Told a w h e.fps e.bitrate (stop e) (stop-Stopped e (Life-index e l))))
      (λ n. l)

converted-Running :
    (e : AmfEncoder) (r : Option (ℕ × List ℕ)) → Running e → Running (converted e r).0
unfolding converted
converted-Running e none g = g
converted-Running e (some (p, b)) g = record {
  amf_dll = g.amf_dll;
  context = g.context;
  encoder = g.encoder;
  device = g.device;
  surface_index = g.surface_index;
  surfaces = g.surfaces;
  nv12_tex = length-set e.nv12_tex e.surface_index _ ∙ g.nv12_tex;
}

copy-Running :
    (d3d : Direct3D) (frame : Texture) (e : AmfEncoder)
    → Running e
    → Running (copy_frame_to_nv12 d3d frame e).0
unfolding copy_frame_to_nv12
copy-Running d3d frame e g =
    let dctx = e.dctx || d3d.context in
    let e1 = record e { device = e.device || not e.dctx; dctx = dctx } in
    let r = read_back d3d frame (ensure_staging d3d frame e.staging) in
    let g1 : Running e1 = record {
      amf_dll = g.amf_dll;
      context = g.context;
      encoder = g.encoder;
      device = ground (arith, g.device);
      surface_index = g.surface_index;
      surfaces = g.surfaces;
      nv12_tex = g.nv12_tex;
    } in
    if_cases (λ (r : AmfEncoder × Bool). Running r.0) (not dctx) _ _ (λ y. g1)
      (λ n.
        converted-Running (record e1 { staging = r.0 }) r.1
          (record {
            amf_dll = g.amf_dll;
            context = g.context;
            encoder = g.encoder;
            device = g1.device;
            surface_index = g.surface_index;
            surfaces = g.surfaces;
            nv12_tex = g.nv12_tex;
          }))

pub encode-Running :
    (d3d : Direct3D) (a : Answers) (frame : Texture) (e : AmfEncoder)
    → Running e
    → Running (encode d3d a frame e).0
unfolding encode take_turn
encode-Running d3d a frame e g =
    let c = copy-Running d3d frame e g in
    if_cases (λ (r : AmfEncoder × Encoded). Running r.0) (not e.encoder) _ _ (λ y. g)
      (λ n.
        if_cases (λ (r : AmfEncoder × Encoded). Running r.0)
          (not (copy_frame_to_nv12 d3d frame e).1) _ _ (λ y. c)
          (λ m. record {
            amf_dll = c.amf_dll;
            context = c.context;
            encoder = c.encoder;
            device = c.device;
            surface_index = rw g.surfaces (omega arith);
            surfaces = c.surfaces;
            nv12_tex = c.nv12_tex;
          }))

encode-Life :
    (d3d : Direct3D) (a : Answers) (frame : Texture) (e : AmfEncoder)
    → Life e
    → Life (encode d3d a frame e).0
encode-Life d3d a frame e (inl g) = inl (encode-Running d3d a frame e g)
encode-Life d3d a frame e (inr s) = inr (encode-Stopped d3d a frame e s)

-- The operations of an encoder that has been started; the device it is handed is not null.
pub data Operation : Type 0 where
  encoding : Direct3D → Answers → Texture → Operation
  resizing : Answers → ℕ → ℕ → Operation
  retargeting : Answers → ℕ → Operation
  requesting : Operation
  handing_device : Operation
  stopping : Operation

abbrev pub operate : Operation → AmfEncoder → AmfEncoder
operate (encoding d3d a frame) e = (encode d3d a frame e).0
operate (resizing a w h) e = (resize a w h e).0
operate (retargeting a bitrate) e = (set_bitrate a bitrate e).0
operate requesting e = request_keyframe e
operate handing_device e = set_d3d11_device true e
operate stopping e = stop e

abbrev pub operate_all : List Operation → AmfEncoder → AmfEncoder
operate_all [] e = e
operate_all (o ∷ os) e = operate_all os (operate o e)

operate-Life : (o : Operation) (e : AmfEncoder) → Life e → Life (operate o e)
unfolding set_bitrate request_keyframe set_d3d11_device
operate-Life (encoding d3d a frame) e l = encode-Life d3d a frame e l
operate-Life (resizing a w h) e l = resize-Life a w h e l
operate-Life (retargeting a bitrate) e l =
    Same-Life e _
      (record {
        amf_dll = ground arith;
        context = ground arith;
        encoder = ground arith;
        device = λ d. ground (arith, d);
        surface_index = ground arith;
        surfaces = ground arith;
        nv12_tex = ground arith;
      })
      l
operate-Life requesting e l =
    Same-Life e _
      (record {
        amf_dll = refl;
        context = refl;
        encoder = refl;
        device = λ d. d;
        surface_index = refl;
        surfaces = refl;
        nv12_tex = refl;
      })
      l
operate-Life handing_device e l =
    Same-Life e _
      (record {
        amf_dll = refl;
        context = refl;
        encoder = refl;
        device = λ d. refl;
        surface_index = refl;
        surfaces = refl;
        nv12_tex = refl;
      })
      l
operate-Life stopping e l = inr (stop-Stopped e (Life-index e l))

-- After Start on an encoder that holds nothing, and any sequence of Encode, Resize, SetBitrate, RequestKeyframe,
-- SetD3D11Device with a device, and Stop, whatever the libraries answer to each: the encoder is running with its pool of
-- three textures and surfaces, or holds nothing, and the index into the pool is below 3.
pub operate_all-Life :
    (os : List Operation) (a : Answers) (w h fps bitrate : ℕ) (e : AmfEncoder)
    → Stopped e
    → let f = operate_all os (start a w h fps bitrate e).0 in Life f × (f.surface_index < 3)
operate_all-Life os a w h fps bitrate e s =
    let l = go os _ (Told-Life _ (start-Told a w h fps bitrate e s)) in (l, Life-index _ l)
  where
    go : (os : List Operation) (e : AmfEncoder) → Life e → Life (operate_all os e)
    go [] e l = l
    go (o ∷ os) e l = go os (operate o e) (operate-Life o e l)
