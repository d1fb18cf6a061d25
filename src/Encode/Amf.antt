-- ===== src/Encode/Amf.antt =====
-- AmfEncoder of host/src/encode/amf.h and amf.cpp: its state and the operations on its runtime and its pool; Frames has
-- Encode. AMF's answers are an argument of each call; a handle is a Bool, its presence.
pub mod Frames
pub mod Granted
pub mod Life
pub mod Pool
pub mod Start
use m_extender.Prelude.{
  ℕ, zero, suc, ◌+◌, ◌*◌, ◌/◌, ◌≡◌, Bool, true, false, not, ◌&&◌, ◌||◌, List, [], ◌∷◌, ◌++◌, Option,
  none, some, map, length, ◌==◌, if◌then◌else◌,
}
use m_extender.Prelude.Words.{u64}
use m_extender.Encode.Buffers.{Texture, allocate, round_up_16}

-- `surfaces` has the texture that each surface wraps, as its index in `nv12_tex`, which has what each texture holds.
-- `target_rate` and `peak_rate` are properties of the encoder component.
pub record AmfEncoder : Type 0 where
  pub amf_dll : Bool
  pub factory : Bool
  pub context : Bool
  pub encoder : Bool
  pub surfaces : List ℕ
  pub surface_index : ℕ
  pub nv12_tex : List (List ℕ)
  pub device : Bool
  pub dctx : Bool
  pub staging : Option Texture
  pub nv12 : List ℕ
  pub w : ℕ
  pub h : ℕ
  pub fps : ℕ
  pub bitrate : ℕ
  pub enc_w : ℕ
  pub enc_h : ℕ
  pub keyframe_requested : Bool
  pub target_rate : ℕ
  pub peak_rate : ℕ

-- kSurfacePool.
abbrev pub surface_pool : ℕ
surface_pool = 3

pub data Submission : Type 0 where
  accepted : Submission
  input_full : Submission
  refused : Submission

-- What the libraries report to the calls of one operation. `create_texture i` is what the i-th texture holds at first;
-- `submit n` answers the n-th try, and `query n` the n-th question for output.
pub record Answers : Type 0 where
  pub load : Bool
  pub amf_init : Bool
  pub create_context : Bool
  pub init_dx11 : Bool
  pub create_component : Bool
  pub encoder_init : Bool
  pub malloc : ℕ → Bool
  pub create_texture : ℕ → Option (List ℕ)
  pub wrap_texture : ℕ → Bool
  pub set_target : Bool
  pub set_peak : Bool
  pub submit : ℕ → Submission
  pub query : ℕ → Option (List ℕ)

unfoldable pub stop : AmfEncoder → AmfEncoder
stop e = record e {
  surfaces = [];
  nv12_tex = [];
  encoder = false;
  context = false;
  amf_dll = false;
  factory = false;
}

-- LoadRuntime to encoder_->Init: each call is made only if those before it succeeded.
unfoldable pub open_encoder : Answers → AmfEncoder → AmfEncoder × Bool
open_encoder a e =
    let context = a.amf_init && a.create_context in
    let encoder = context && a.init_dx11 && a.create_component in
    (
      record e {
        amf_dll = true;
        factory = a.amf_init;
        context = context;
        encoder = encoder;
        target_rate = if encoder && a.set_target then e.bitrate else e.target_rate;
        peak_rate = if encoder && a.set_peak then e.bitrate * 12 / 10 else e.peak_rate;
      },
      encoder && a.encoder_init,
    )

unfoldable pub allocate_frame : Answers → AmfEncoder → AmfEncoder × Bool
unfolding allocate
allocate_frame a e =
    let n = allocate a.malloc (u64 (e.enc_w * e.enc_h * 3) / 2) in
    (record e { nv12 = map (λ _. 128) n.0 }, n.1)

-- The pool: `n` more textures, each with its surface, from the i-th on.
unfoldable pub push_surface :
    Bool → ℕ → (AmfEncoder → AmfEncoder × Bool) → AmfEncoder → AmfEncoder × Bool
push_surface true i next e = next (record e { surfaces = e.surfaces ++ i ∷ [] })
push_surface false i next e = (e, false)

unfoldable pub push_texture :
    Option (List ℕ) → (AmfEncoder → AmfEncoder × Bool) → AmfEncoder → AmfEncoder × Bool
push_texture none next e = (e, false)
push_texture (some content) next e = next (record e { nv12_tex = e.nv12_tex ++ content ∷ [] })

unfoldable pub fill_pool : Answers → ℕ → ℕ → AmfEncoder → AmfEncoder × Bool
unfolding push_texture push_surface
fill_pool a zero i e = (e, true)
fill_pool a (suc n) i e =
    push_texture (a.create_texture i) (push_surface (a.wrap_texture i) i (fill_pool a n (i + 1))) e

-- One stage of Start after the runtime is loaded, and Stop if it fails.
unfoldable pub or_stop : AmfEncoder × Bool → (AmfEncoder → AmfEncoder × Bool) → AmfEncoder × Bool
unfolding stop
or_stop (e, true) next = next e
or_stop (e, false) next = (stop e, false)

unfoldable pub start : Answers → ℕ → ℕ → ℕ → ℕ → AmfEncoder → AmfEncoder × Bool
unfolding or_stop open_encoder allocate_frame fill_pool round_up_16
start a w h fps bitrate e =
    let e0 = record e {
      w = w;
      h = h;
      fps = if fps == 0 then 30 else fps;
      bitrate = bitrate;
      keyframe_requested = true;
      enc_w = round_up_16 w;
      enc_h = round_up_16 h;
    } in
    if e.device && a.load
    then or_stop (open_encoder a e0) (λ e1.
      or_stop (allocate_frame a e1)
        (λ e2. or_stop (fill_pool a surface_pool 0 e2) (λ e3. (e3, true))))
    else (e0, false)

unfoldable pub set_d3d11_device : Bool → AmfEncoder → AmfEncoder
set_d3d11_device device e = record e { device = device }

unfoldable pub request_keyframe : AmfEncoder → AmfEncoder
request_keyframe e = record e { keyframe_requested = true }

unfoldable pub resize : Answers → ℕ → ℕ → AmfEncoder → AmfEncoder × Bool
unfolding start stop
resize a w h e = if e.encoder then start a w h e.fps e.bitrate (stop e) else (e, false)

unfoldable pub set_bitrate : Answers → ℕ → AmfEncoder → AmfEncoder × Bool
set_bitrate a bitrate e =
    if not e.encoder || not a.set_target
    then (e, false)
    else if a.set_peak
    then (
      record e { target_rate = bitrate; peak_rate = bitrate * 12 / 10; bitrate = bitrate },
      true,
    )
    else (record e { target_rate = bitrate }, false)
