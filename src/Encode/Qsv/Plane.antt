-- ===== src/Encode/Qsv/Plane.antt =====
-- The rate that QsvEncoder of host/src/encode/qsv.cpp encodes at, and the planes of its NV12 buffer.
use native.Mathlib.Nat.{mul-le-mul_right, add-mul}
use m_extender.Prelude.{
  ℕ, ◌+◌, ◌*◌, ◌/◌, ◌%◌, ◌≤◌, ◌<◌, ◌≡◌, refl, ◌⊎◌, inl, inr, Bool, true, false, List, [], ◌∷◌,
  Option, none, some, get_or, map, length, arith, not, ◌||◌, ◌==◌, ap, ap₂, subst, ◌∙◌, sym, All,
  Bool-cases, if◌then◌else◌,
}
use m_extender.Prelude.Words.{u16, u32, u64}
use m_extender.Session.{clamp_bitrate}
use m_extender.Encode.Color.{bgra_to_nv12}
use m_extender.Encode.Color.Range.{AllBytes, Video, bgra_to_nv12-Video}
use m_extender.Encode.Buffers.{Texture, Direct3D, allocate, round_up_16, ensure_staging, read_back}
use m_extender.Encode.Buffers.Fit.{write_all_beyond, writes_fit, length-allocate}
use m_extender.Encode.Qsv.{
  QsvEncoder, Answers, Exports, Param, param_for, resolve_all, load_from, load_runtime,
  init_session, with_rate, allocate_buffers, initialized, configure, start, start_ends, set_bitrate,
}
use m_extender.Encode.Qsv.Frames.{converted, copy_frame_to_nv12, surface_of, encode}

rates_exact :
    (c : ℕ)
    → c ≤ 40000000
    → (u16 (c / 1000) ≡ c / 1000) × (u16 (u32 (c * 12) / 10 / 1000) ≡ c * 12 / 10 / 1000)
rates_exact c l = (omega arith, omega arith)

clamp_bitrate-bound : (b : ℕ) → clamp_bitrate b ≤ 40000000
unfolding clamp_bitrate
clamp_bitrate-bound b = ground arith

-- SetBitrate with the bitrate that a control message asks for: when it succeeds, the rates of the encoder are that
-- bitrate in kilobits, neither of them wrapped in 16 bits, the room is not empty, and the state remembers
-- the bitrate; when it fails, nothing has changed.
pub set_bitrate_exact :
    (a : Answers) (b : ℕ) (e : QsvEncoder)
    → let r = set_bitrate a (clamp_bitrate b) e in
      ((r.1 ≡ true)
        × (r.0.bitrate ≡ clamp_bitrate b)
        × (r.0.param.target_kbps ≡ clamp_bitrate b / 1000)
        × (r.0.param.max_kbps ≡ clamp_bitrate b * 12 / 10 / 1000))
      ⊎ ((r.1 ≡ false) × (r.0 ≡ e))
unfolding set_bitrate with_rate
set_bitrate_exact a b e =
    let c = clamp_bitrate b in
    let (t, m) = rates_exact c (clamp_bitrate-bound b) in
    elim (Bool-cases (not e.session || not e.configured || not e.exports.enc_reset)) [
      | inl y ↦ rw y (inr (refl, refl))
      | inr n ↦ elim (Bool-cases (a.reset (with_rate c e.fps e.user_param))) [
        | inl z ↦ rw (n, z) (inl (refl, refl, t, m))
        | inr z ↦ rw (n, z) (inr (refl, refl))
      ]
    ]

-- Map reads bytes.
abbrev pub ReadsBytes : Direct3D → Type 0
ReadsBytes d3d =
    (t : Texture) (row_pitch : ℕ) (bgra : List ℕ)
    → d3d.map_read t ≡ some (row_pitch, bgra)
    → AllBytes bgra

read_back-bytes :
    (d3d : Direct3D) (frame : Texture) (s : Option Texture)
    → ReadsBytes d3d
    → (row_pitch : ℕ) (bgra : List ℕ) → (read_back d3d frame s).1 ≡ some (row_pitch, bgra)
    → AllBytes bgra
unfolding read_back
read_back-bytes d3d frame none b p l h = absurd (ground (arith, h))
read_back-bytes d3d frame (some t) b p l h = b (d3d.copy_resource t frame) p l h

converted_beyond :
    (e : QsvEncoder) (r : Option (ℕ × List ℕ)) (k d : ℕ)
    → ((row_pitch : ℕ) (bgra : List ℕ) → r ≡ some (row_pitch, bgra) → AllBytes bgra)
    → e.w % 2 ≡ 0
    → e.w ≤ e.enc_w
    → (e.h + e.h / 2) * e.enc_w ≤ k
    → get_or (converted e r).0.nv12 k d ≡ get_or e.nv12 k d
unfolding converted
converted_beyond e none k d b v l g = refl
converted_beyond e (some (row_pitch, bgra)) k d b v l g =
    write_all_beyond _ e.nv12 _ k d
      (bgra_to_nv12-Video bgra row_pitch e.enc_w e.w e.h (b row_pitch bgra refl) v l) g

-- The fault: when Map reads bytes, the width of the encoder is even and at most the width of its surface, then, whatever
-- the frame and whatever the libraries report, Encode leaves each byte of the chroma plane that it submits as it
-- was, from the row on whose number is h + h / 2 - enc_h: BgraToNv12 puts its chroma plane after h rows and the
-- surface looks for it after enc_h.
pub encode_colourless :
    (d3d : Direct3D) (a : Answers) (frame : Texture) (e : QsvEncoder) (row x d : ℕ)
    → ReadsBytes d3d
    → e.w % 2 ≡ 0
    → e.w ≤ e.enc_w
    → e.h + e.h / 2 ≤ e.enc_h + row
    → get_or (encode d3d a frame e).0.nv12 ((surface_of e).data_u + row * e.enc_w + x) d
      ≡ get_or e.nv12 ((surface_of e).data_u + row * e.enc_w + x) d
unfolding encode copy_frame_to_nv12 surface_of
encode_colourless d3d a frame e row x d b v l g =
    let k = e.enc_w * e.enc_h + row * e.enc_w + x in
    let ctx = if e.device then e.ctx else d3d.context in
    let r = read_back d3d frame (ensure_staging d3d frame e.staging) in
    let e1 = record e { device = true; ctx = ctx; staging = r.0 } in
    let m : (e.h + e.h / 2) * e.enc_w ≤ (e.enc_h + row) * e.enc_w = mul-le-mul_right e.enc_w g in
    let c =
      converted_beyond e1 r.1 k d (read_back-bytes d3d frame (ensure_staging d3d frame e.staging) b)
        v l (omega (arith, m, add-mul e.enc_h row e.enc_w)) in
    ground (arith, c)

-- What a successful Start with a size leaves: buffers for that size rounded up to 16.
record Sized (w h : ℕ) (e : QsvEncoder) : Type 0 where
  nv12 : length e.nv12 ≡ u64 (round_up_16 w * round_up_16 h * 3) / 2
  enc_w : e.enc_w ≡ round_up_16 w
  width : e.w ≡ w
  height : e.h ≡ h

load_from-size :
    (ds : List (Option Exports)) (e : QsvEncoder)
    → ((load_from ds e).0.w ≡ e.w) × ((load_from ds e).0.h ≡ e.h)
unfolding load_from
load_from-size [] e = (refl, refl)
load_from-size (none ∷ ds) e = load_from-size ds e
load_from-size (some d ∷ ds) e =
    let next = load_from-size ds (record e { exports = (resolve_all d e.exports).0 }) in
    ground arith

allocate_buffers-length :
    (a : Answers) (e : QsvEncoder)
    → (allocate_buffers a e).1 ≡ true
    → length (allocate_buffers a e).0.nv12 ≡ u64 (e.enc_w * e.enc_h * 3) / 2
unfolding allocate_buffers
allocate_buffers-length a e h =
    let n = u64 (e.enc_w * e.enc_h * 3) / 2 in
    let l = length-allocate a.malloc n 128 in
    elim (Bool-cases (allocate a.malloc n).1) [
      | inl y ↦ rw y (l y)
      | inr m ↦ absurd (ground (arith, h, m))
    ]

initialized-Sized :
    (a : Answers) (e : QsvEncoder) (p : Option Param) (w h : ℕ)
    → e.w ≡ w
    → e.h ≡ h
    → e.enc_w ≡ round_up_16 w
    → e.enc_h ≡ round_up_16 h
    → (initialized a e p).1 ≡ true
    → Sized w h (initialized a e p).0
unfolding initialized allocate_buffers
initialized-Sized a e none w h s t x y ok = absurd (ground (arith, ok))
initialized-Sized a e (some p) w h s t x y ok =
    let e1 = record e { user_param = p; param = p; configured = true } in
    record {
      nv12 = allocate_buffers-length a e1 ok ∙ ap₂ (λ m n. u64 (m * n * 3) / 2) x y;
      enc_w = ground (arith, x);
      width = ground (arith, s);
      height = ground (arith, t);
    }

start_ends-true :
    (l i c : QsvEncoder × Bool)
    → (start_ends l i c).1 ≡ true
    → (c.1 ≡ true) × ((start_ends l i c).0 ≡ c.0)
unfolding start_ends
start_ends-true (e, false) i c h = absurd (ground (arith, h))
start_ends-true (e, true) (f, false) c h = absurd (ground (arith, h))
start_ends-true (e, true) (f, true) (g, false) h = absurd (ground (arith, h))
start_ends-true (e, true) (f, true) (g, true) h = (refl, refl)

start-Sized :
    (a : Answers) (w h fps bitrate : ℕ) (e : QsvEncoder)
    → (start a w h fps bitrate e).1 ≡ true
    → Sized w h (start a w h fps bitrate e).0
unfolding start load_runtime init_session configure
start-Sized a w h fps bitrate e t =
    let e0 = record e {
      w = w;
      h = h;
      fps = if fps == 0 then 30 else fps;
      bitrate = bitrate;
      keyframe_requested = true;
    } in
    let l = load_runtime a e0 in
    let i = init_session a l.0 in
    let (c, q) = start_ends-true l i (configure a i.0) t in
    let e1 = record i.0 { enc_w = round_up_16 i.0.w; enc_h = round_up_16 i.0.h } in
    let (x, y) = load_from-size (map a.library (0 ∷ 1 ∷ 2 ∷ [])) e0 in
    subst (Sized w h) (sym q) (
      initialized-Sized a e1 (a.enc_init (param_for e1)) w h x y (ap round_up_16 x)
        (ap round_up_16 y) c)

-- After a successful Start with an even width below 65536 and a height below 65536, everything that BgraToNv12 writes
-- when Encode converts a frame, whatever the frame, lies within the buffer that Start allocated.
pub start_fits :
    (a : Answers) (w h fps bitrate : ℕ) (e : QsvEncoder) (bgra : List ℕ) (row_pitch : ℕ)
    → (start a w h fps bitrate e).1 ≡ true
    → w % 2 ≡ 0
    → w < 65536
    → h < 65536
    → AllBytes bgra
    → let s = (start a w h fps bitrate e).0 in
      All (Video 0 (length s.nv12)) (bgra_to_nv12 bgra row_pitch s.enc_w s.w s.h)
start_fits a w h fps bitrate e bgra row_pitch t v x y b =
    let z = start-Sized a w h fps bitrate e t in
    rw (z.nv12, z.enc_w, z.width, z.height) (writes_fit bgra row_pitch w h b v x y)
