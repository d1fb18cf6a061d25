-- ===== src/Encode/Qsv/Picture.antt =====
-- The pictures that QsvEncoder of host/src/encode/qsv.cpp submits: what they are made from after a resize.

use m_extender.Prelude.{
  ℕ, ◌≡◌, ◌≢◌, refl, ◌⊎◌, inl, Bool, true, false, List, [], ◌∷◌, Option, none, some, map, arith,
  ◌==◌, ap, ◌∙◌, All, if◌then◌else◌,
}
use m_extender.Encode.Buffers.{Texture, Direct3D, round_up_16, ensure_staging, read_back}
use m_extender.Encode.Qsv.{
  QsvEncoder, Answers, Exports, Param, param_for, resolve_all, load_from, load_runtime,
  unload_runtime, stop, init_session, allocate_buffers, initialized, configure, start, start_ends,
  resize,
}
use m_extender.Encode.Qsv.Frames.{Encoded, converted, copy_frame_to_nv12, encode}

load_from-staging :
    (ds : List (Option Exports)) (e : QsvEncoder) → (load_from ds e).0.staging ≡ e.staging
unfolding load_from
load_from-staging [] e = refl
load_from-staging (none ∷ ds) e = load_from-staging ds e
load_from-staging (some d ∷ ds) e =
    let next = load_from-staging ds (record e { exports = (resolve_all d e.exports).0 }) in
    ground arith

initialized-staging :
    (a : Answers) (e : QsvEncoder) (p : Option Param) → (initialized a e p).0.staging ≡ e.staging
unfolding initialized allocate_buffers
initialized-staging a e none = refl
initialized-staging a e (some p) = ground arith

configure-staging : (a : Answers) (e : QsvEncoder) → (configure a e).0.staging ≡ e.staging
unfolding configure
configure-staging a e =
    let e1 = record e { enc_w = round_up_16 e.w; enc_h = round_up_16 e.h } in
    initialized-staging a e1 (a.enc_init (param_for e1))

stop-staging : (e : QsvEncoder) → (stop e).staging ≡ e.staging
unfolding stop unload_runtime
stop-staging e = refl

start_ends-staging :
    (l i c : QsvEncoder × Bool) (s : Option Texture)
    → l.0.staging ≡ s
    → i.0.staging ≡ s
    → c.0.staging ≡ s
    → (start_ends l i c).0.staging ≡ s
unfolding start_ends stop unload_runtime
start_ends-staging (e, false) i c s x y z = x
start_ends-staging (e, true) (f, false) c s x y z = y
start_ends-staging (e, true) (f, true) (g, false) s x y z = z
start_ends-staging (e, true) (f, true) (g, true) s x y z = z

start-staging :
    (a : Answers) (w h fps bitrate : ℕ) (e : QsvEncoder)
    → (start a w h fps bitrate e).0.staging ≡ e.staging
unfolding start load_runtime init_session
start-staging a w h fps bitrate e =
    let e0 = record e {
      w = w;
      h = h;
      fps = if fps == 0 then 30 else fps;
      bitrate = bitrate;
      keyframe_requested = true;
    } in
    let l = load_runtime a e0 in
    let i = init_session a l.0 in
    let x = load_from-staging (map a.library (0 ∷ 1 ∷ 2 ∷ [])) e0 in
    start_ends-staging l i (configure a i.0) e.staging x x (configure-staging a i.0 ∙ x)

-- CopyResource does nothing for textures of different sizes.
abbrev pub NeedsSameSize : Direct3D → Type 0
NeedsSameSize d3d =
    (to from : Texture) → (to.w ≢ from.w) ⊎ (to.h ≢ from.h) → d3d.copy_resource to from ≡ to

encode_stale :
    (d3d : Direct3D) (a : Answers) (t f g : Texture) (e : QsvEncoder)
    → e.staging ≡ some t
    → d3d.copy_resource t f ≡ t
    → d3d.copy_resource t g ≡ t
    → encode d3d a f e ≡ encode d3d a g e
unfolding encode copy_frame_to_nv12 ensure_staging read_back
encode_stale d3d a t f g e s p q = simp (s, p, q)

-- What a sequence of calls of Encode gives.
abbrev pub encodes : Direct3D → List (Answers × Texture) → QsvEncoder → List Encoded
encodes d3d [] e = []
encodes d3d ((a, f) ∷ rest) e = let r = encode d3d a f e in r.1 ∷ encodes d3d rest r.0

converted-staging :
    (e : QsvEncoder) (r : Option (ℕ × List ℕ)) → (converted e r).0.staging ≡ e.staging
unfolding converted
converted-staging e none = refl
converted-staging e (some r) = refl

encode-staging :
    (d3d : Direct3D) (a : Answers) (t f : Texture) (e : QsvEncoder)
    → e.staging ≡ some t
    → d3d.copy_resource t f ≡ t
    → (encode d3d a f e).0.staging ≡ some t
unfolding encode copy_frame_to_nv12 ensure_staging read_back
encode-staging d3d a t f e s p =
    let ctx = if e.device then e.ctx else d3d.context in
    let e1 = record e { device = true; ctx = ctx; staging = some t } in
    let c = converted-staging e1 (d3d.map_read t) in simp (s, p) (ground (arith, s, c))

-- The fault: the staging texture outlives Resize. When CopyResource does nothing for textures of different sizes, an
-- encoder that has a staging texture of another width than the one it is resized to gives the same results for
-- any two sequences of frames of the new width, whatever is in them: it goes on encoding the old picture.
pub resize_frozen :
    (d3d : Direct3D) (a : Answers) (w h : ℕ) (t : Texture) (e : QsvEncoder)
    (frames : List (Answers × Texture × Texture))
    → NeedsSameSize d3d
    → e.staging ≡ some t
    → t.w ≢ w
    → All (λ (b, f, g). (f.w ≡ w) × (g.w ≡ w)) frames
    → encodes d3d (map (λ (b, f, g). (b, f)) frames) (resize a w h e).0
      ≡ encodes d3d (map (λ (b, f, g). (b, g)) frames) (resize a w h e).0
unfolding resize
resize_frozen d3d a w h t e frames n s d all = go frames (resize a w h e).0 kept all
  where
    kept : (resize a w h e).0.staging ≡ some t
    kept = ground (arith, s, start-staging a w h e.fps e.bitrate (stop e), stop-staging e)

    stale : (f : Texture) → f.w ≡ w → d3d.copy_resource t f ≡ t
    stale f l = n t f (inl (λ m. d (m ∙ l)))

    go :
        (frames : List (Answers × Texture × Texture)) (e : QsvEncoder)
        → e.staging ≡ some t
        → All (λ (b, f, g). (f.w ≡ w) × (g.w ≡ w)) frames
        → encodes d3d (map (λ (b, f, g). (b, f)) frames) e
          ≡ encodes d3d (map (λ (b, f, g). (b, g)) frames) e
    go [] e k all = refl
    go ((b, f, g) ∷ rest) e k ((x, y), all) =
        let q = encode_stale d3d b t f g e k (stale f x) (stale g y) in
        rw q (
          ap (λ l. (encode d3d b g e).1 ∷ l)
            (go rest _ (encode-staging d3d b t g e k (stale g y)) all))
