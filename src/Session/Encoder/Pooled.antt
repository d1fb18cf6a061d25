-- ===== src/Session/Encoder/Pooled.antt =====
-- AmfEncoder of host/src/encode/amf.cpp as the encoder of the main loop: while it runs, which size it is configured for.
use m_extender.Prelude.{
  ℕ, zero, suc, ◌+◌, ◌*◌, ◌/◌, ◌≡◌, refl, ◌∙◌, Bool, true, false, not, ◌||◌, ◌&&◌, List, Option,
  none, some, inl, inr, arith, ◌==◌, if_cases, if◌then◌else◌,
}
use m_extender.Encode.Buffers.{Direct3D, Texture, round_up_16}
use m_extender.Encode.Amf
use m_extender.Encode.Amf.{
  AmfEncoder, Answers, surface_pool, stop, open_encoder, allocate_frame, push_surface, push_texture,
  fill_pool, or_stop, start,
}
use m_extender.Encode.Amf.Frames
use m_extender.Encode.Amf.Frames.{Encoded, converted, copy_frame_to_nv12, take_turn}
use m_extender.Encode.Amf.Start.{Running, start-Told, stop-Stopped}
use m_extender.Encode.Amf.Life.{encode-Running}
use m_extender.Scale.{Source}
use m_extender.Session.Encoder.{Encoder}
use m_extender.Session.Encoder.Size.{Sizes}

-- Direct3D, the texture for each source, and AMF.
abbrev pub amf_encoder : Encoder
amf_encoder = record {
  E = AmfEncoder;
  A = Direct3D × (Source → Texture) × Answers;
  encode = λ a source e. let r = Frames.encode a.0 a.2 (a.1 source) e in (r.0, r.1.frame);
  resize = λ a w h e. Amf.resize a.2 w h e;
  request = Amf.request_keyframe;
  change_bitrate = λ a b e. Amf.set_bitrate a.2 b e;
}

abbrev pub dims_of : AmfEncoder → ℕ × ℕ
dims_of e = (e.w, e.h)

-- It runs, with its whole pool, and has that size.
abbrev pub RunsAt : AmfEncoder → ℕ × ℕ → Type 0
RunsAt e p = Running e × (dims_of e ≡ p)

same_pool :
    (e f : AmfEncoder)
    → Running e
    → f.amf_dll ≡ e.amf_dll
    → f.context ≡ e.context
    → f.encoder ≡ e.encoder
    → f.device ≡ e.device
    → f.surface_index ≡ e.surface_index
    → f.surfaces ≡ e.surfaces
    → f.nv12_tex ≡ e.nv12_tex
    → Running f
same_pool e f g dll context encoder device index surfaces textures = record {
  amf_dll = dll ∙ g.amf_dll;
  context = context ∙ g.context;
  encoder = encoder ∙ g.encoder;
  device = device ∙ g.device;
  surface_index = rw index g.surface_index;
  surfaces = surfaces ∙ g.surfaces;
  nv12_tex = rw textures g.nv12_tex;
}

or_stop-size :
    (r : AmfEncoder × Bool) (next : AmfEncoder → AmfEncoder × Bool) (p : ℕ × ℕ)
    → dims_of r.0 ≡ p
    → dims_of (next r.0).0 ≡ p
    → dims_of (or_stop r next).0 ≡ p
unfolding or_stop stop
or_stop-size (e, true) next p a b = b
or_stop-size (e, false) next p a b = a

push_surface-size :
    (b : Bool) (i : ℕ) (next : AmfEncoder → AmfEncoder × Bool) (e : AmfEncoder) (p : ℕ × ℕ)
    → dims_of e ≡ p
    → ((f : AmfEncoder) → dims_of f ≡ p → dims_of (next f).0 ≡ p)
    → dims_of (push_surface b i next e).0 ≡ p
unfolding push_surface
push_surface-size true i next e p s n = n _ s
push_surface-size false i next e p s n = s

push_texture-size :
    (o : Option (List ℕ)) (next : AmfEncoder → AmfEncoder × Bool) (e : AmfEncoder) (p : ℕ × ℕ)
    → dims_of e ≡ p
    → ((f : AmfEncoder) → dims_of f ≡ p → dims_of (next f).0 ≡ p)
    → dims_of (push_texture o next e).0 ≡ p
unfolding push_texture
push_texture-size none next e p s n = s
push_texture-size (some c) next e p s n = n _ s

fill_pool-size :
    (a : Answers) (n i : ℕ) (e : AmfEncoder) (p : ℕ × ℕ)
    → dims_of e ≡ p
    → dims_of (fill_pool a n i e).0 ≡ p
unfolding fill_pool
fill_pool-size a zero i e p s = s
fill_pool-size a (suc n) i e p s = push_texture-size (a.create_texture i) _ e p s (λ f s'.
    push_surface-size (a.wrap_texture i) i (fill_pool a n (i + 1)) f p s'
      (λ g s''. fill_pool-size a n (i + 1) g p s''))

start-size :
    (a : Answers) (w h fps bitrate : ℕ) (e : AmfEncoder)
    → dims_of (start a w h fps bitrate e).0 ≡ (w, h)
unfolding start open_encoder allocate_frame
start-size a w h fps bitrate e =
    let e0 = record e {
      w = w;
      h = h;
      fps = if fps == 0 then 30 else fps;
      bitrate = bitrate;
      keyframe_requested = true;
      enc_w = round_up_16 w;
      enc_h = round_up_16 h;
    } in
    let e1 = (open_encoder a e0).0 in
    let e2 = (allocate_frame a e1).0 in
    let filled = fill_pool-size a surface_pool 0 e2 (w, h) refl in
    if_cases (λ (r : AmfEncoder × Bool). dims_of r.0 ≡ (w, h)) (e.device && a.load) _ _
      (λ y.
        or_stop-size (open_encoder a e0) _ (w, h) refl
          (or_stop-size (allocate_frame a e1) _ (w, h) refl
            (or_stop-size (fill_pool a surface_pool 0 e2) _ (w, h) filled filled)))
      (λ n. refl)

pub resize-RunsAt :
    (a : Answers) (w h : ℕ) (e : AmfEncoder)
    → Running e
    → (Amf.resize a w h e).1 ≡ true
    → RunsAt (Amf.resize a w h e).0 (w, h)
unfolding Amf.resize
resize-RunsAt a w h e g =
    if_cases (λ (r : AmfEncoder × Bool). r.1 ≡ true → RunsAt r.0 (w, h)) e.encoder _ _
      (λ y ok. elim (start-Told a w h e.fps e.bitrate (stop e) (stop-Stopped e g.surface_index)) [
        | inl t ↦ (t.1, start-size a w h e.fps e.bitrate (stop e))
        | inr t ↦ absurd (ground (arith, ok, t.0))
      ])
      (λ n ok. absurd (ground (arith, n, g.encoder)))

converted-size : (e : AmfEncoder) (r : Option (ℕ × List ℕ)) → dims_of (converted e r).0 ≡ dims_of e
unfolding converted
converted-size e none = refl
converted-size e (some (p, b)) = refl

copy-size :
    (d3d : Direct3D) (frame : Texture) (e : AmfEncoder)
    → dims_of (copy_frame_to_nv12 d3d frame e).0 ≡ dims_of e
unfolding copy_frame_to_nv12
copy-size d3d frame e =
    if_cases (λ (r : AmfEncoder × Bool). dims_of r.0 ≡ dims_of e) (not (e.dctx || d3d.context)) _ _
      (λ y. refl) (λ n. converted-size _ _)

pub encode-RunsAt :
    (d3d : Direct3D) (a : Answers) (frame : Texture) (e : AmfEncoder) (p : ℕ × ℕ)
    → RunsAt e p
    → RunsAt (Frames.encode d3d a frame e).0 p
encode-RunsAt d3d a frame e p (g, s) = (encode-Running d3d a frame e g, encode-size ∙ s)
  where
    encode-size : dims_of (Frames.encode d3d a frame e).0 ≡ dims_of e
    encode-size =
        unfold Frames.encode in
        unfold take_turn in
        if_cases (λ (r : AmfEncoder × Encoded). dims_of r.0 ≡ dims_of e) (not e.encoder) _ _
          (λ y. refl)
          (λ n.
            if_cases (λ (r : AmfEncoder × Encoded). dims_of r.0 ≡ dims_of e)
              (not (copy_frame_to_nv12 d3d frame e).1) _ _ (λ y. copy-size d3d frame e)
              (λ m. copy-size d3d frame e))

pub request_keyframe-RunsAt :
    (e : AmfEncoder) (p : ℕ × ℕ) → RunsAt e p → RunsAt (Amf.request_keyframe e) p
unfolding Amf.request_keyframe
request_keyframe-RunsAt e p (g, s) = (same_pool e _ g refl refl refl refl refl refl refl, s)

pub set_bitrate-RunsAt :
    (a : Answers) (b : ℕ) (e : AmfEncoder) (p : ℕ × ℕ)
    → RunsAt e p
    → RunsAt (Amf.set_bitrate a b e).0 p
unfolding Amf.set_bitrate
set_bitrate-RunsAt a b e p (g, s) =
    let same : (t u : ℕ) (r : ℕ)
        → RunsAt (record e { target_rate = t; peak_rate = u; bitrate = r }) p =
      λ t u r. (same_pool e _ g refl refl refl refl refl refl refl, s) in
    if_cases (λ (r : AmfEncoder × Bool). RunsAt r.0 p) (not e.encoder || not a.set_target) _ _
      (λ y. (g, s))
      (λ n.
        if_cases (λ (r : AmfEncoder × Bool). RunsAt r.0 p) a.set_peak _ _
          (λ y. same b (b * 12 / 10) b) (λ m. same b e.peak_rate e.bitrate))

abbrev pub amf-Sizes : Sizes amf_encoder
amf-Sizes = record {
  At = RunsAt;
  At-resize = λ a w k e p at ok. resize-RunsAt a.2 w k e at.0 ok;
  At-encode = λ a source e p at. encode-RunsAt a.0 a.2 (a.1 source) e p at;
  At-request = request_keyframe-RunsAt;
  At-change_bitrate = λ a b e p at. set_bitrate-RunsAt a.2 b e p at;
}
