-- ===== src/Encode/Qsv.antt =====
-- QsvEncoder of host/src/encode/qsv.h and qsv.cpp: its state and the operations on its session; Frames has Encode. The Media SDK's answers are an
-- argument of each call; a handle or a resolved function is a Bool, its presence.
pub mod Frames
pub mod Life
pub mod Picture
pub mod Plane
pub mod Start
use m_extender.Prelude.{
  ℕ, ◌+◌, ◌*◌, ◌/◌, ◌≡◌, Bool, true, false, not, ◌&&◌, ◌||◌, List, [], ◌∷◌, Option, none, some,
  length, map, max, ltb, ◌==◌, if◌then◌else◌,
}
use m_extender.Prelude.Words.{u16, u32, u64}
use m_extender.Payload.{EncodedFrame}
use m_extender.Nal.{split_annex_b, has_idr_slice}
use m_extender.Encode.Color.{bgra_to_nv12}
use m_extender.Encode.Buffers.{
  Texture, Direct3D, allocate, round_up_16, ensure_staging, read_back, write_all,
}

-- The functions of the runtime, in the order in which LoadRuntime looks for them.
pub record Exports : Type 0 where
  pub init_ex : Bool
  pub close : Bool
  pub enc_init : Bool
  pub enc_close : Bool
  pub enc_frame : Bool
  pub sync_op : Bool
  pub enc_reset : Bool

-- The fields of mfxVideoParam that differ from one call to another.
pub record Param : Type 0 where
  pub target_kbps : ℕ
  pub max_kbps : ℕ
  pub buffer_size : ℕ
  pub gop_size : ℕ
  pub width : ℕ
  pub height : ℕ
  pub crop_w : ℕ
  pub crop_h : ℕ
  pub frame_rate : ℕ

pub record QsvEncoder : Type 0 where
  pub qsv_dll : Bool
  pub session : Bool
  pub configured : Bool
  pub exports : Exports
  pub w : ℕ
  pub h : ℕ
  pub fps : ℕ
  pub bitrate : ℕ
  pub enc_w : ℕ
  pub enc_h : ℕ
  pub keyframe_requested : Bool
  pub device : Bool
  pub ctx : Bool
  pub staging : Option Texture
  pub nv12 : List ℕ
  pub bs : ℕ
  pub param : Param
  pub user_param : Param

pub data MfxStatus : Type 0 where
  none_err : MfxStatus
  more_data : MfxStatus
  in_execution : MfxStatus
  failed : MfxStatus

-- What the libraries report to the calls of one operation. `library i` is the i-th candidate, if it can be loaded;
-- `init_ex` is told the major version; `enc_init` gives the parameters as the call leaves them, if it succeeds.
pub record Answers : Type 0 where
  pub library : ℕ → Option Exports
  pub init_ex : ℕ → Bool
  pub enc_init : Param → Option Param
  pub malloc : ℕ → Bool
  pub frame_status : MfxStatus
  pub sync_point : Bool
  pub sync_done : Bool
  pub bitstream : List ℕ
  pub reset : Param → Bool

-- The required exports of one library, each looked for only if those before it were found.
unfoldable pub resolve_all : Exports → Exports → Exports × Bool
resolve_all d p =
    let two = d.init_ex && d.close in
    let three = two && d.enc_init in
    let four = three && d.enc_close in
    let five = four && d.enc_frame in
    let six = five && d.sync_op in
    (
      record {
        init_ex = d.init_ex;
        close = if d.init_ex then d.close else p.close;
        enc_init = if two then d.enc_init else p.enc_init;
        enc_close = if three then d.enc_close else p.enc_close;
        enc_frame = if four then d.enc_frame else p.enc_frame;
        sync_op = if five then d.sync_op else p.sync_op;
        enc_reset = if six then d.enc_reset else p.enc_reset;
      },
      six,
    )

-- The loop over the candidates; what an unusable library resolved stays behind.
unfoldable pub load_from : List (Option Exports) → QsvEncoder → QsvEncoder × Bool
unfolding resolve_all
load_from [] e = (e, false)
load_from (none ∷ rest) e = load_from rest e
load_from (some dll ∷ rest) e =
    let r = resolve_all dll e.exports in
    let next = load_from rest (record e { exports = r.0 }) in
    if r.1 then (record e { qsv_dll = true; exports = r.0 }, true) else next

unfoldable pub load_runtime : Answers → QsvEncoder → QsvEncoder × Bool
unfolding load_from
load_runtime a e = load_from (map a.library (0 ∷ 1 ∷ 2 ∷ [])) e

abbrev pub no_exports : Exports
no_exports = record {
  init_ex = false;
  close = false;
  enc_init = false;
  enc_close = false;
  enc_frame = false;
  sync_op = false;
  enc_reset = false;
}

unfoldable pub unload_runtime : QsvEncoder → QsvEncoder
unload_runtime e = record e { qsv_dll = false; exports = no_exports }

unfoldable pub stop : QsvEncoder → QsvEncoder
unfolding unload_runtime
stop e = unload_runtime (record e { session = false; configured = false })

unfoldable pub init_session : Answers → QsvEncoder → QsvEncoder × Bool
init_session a e = let ok = a.init_ex 1 || a.init_ex 0 in (record e { session = ok }, ok)

-- The three fields of the rate control.
unfoldable pub with_rate : ℕ → ℕ → Param → Param
with_rate bitrate fps p = record p {
  target_kbps = u16 (bitrate / 1000);
  max_kbps = u16 (u32 (bitrate * 12) / 10 / 1000);
  buffer_size = u16 (max 1 (bitrate / fps / 1000));
}

unfoldable pub param_for : QsvEncoder → Param
unfolding with_rate
param_for e = with_rate e.bitrate e.fps record {
  target_kbps = 0;
  max_kbps = 0;
  buffer_size = 0;
  gop_size = u16 (u32 (e.fps * 2));
  width = u16 e.enc_w;
  height = u16 e.enc_h;
  crop_w = u16 e.w;
  crop_h = u16 e.h;
  frame_rate = u16 e.fps;
}

-- The buffers: a frame of neutral bytes, then the room for the output.
unfoldable pub allocate_buffers : Answers → QsvEncoder → QsvEncoder × Bool
unfolding allocate
allocate_buffers a e =
    let n = allocate a.malloc (u64 (e.enc_w * e.enc_h * 3) / 2) in
    let e1 = record e { nv12 = map (λ _. 128) n.0 } in
    let b = allocate a.malloc (max (u64 (e.bitrate / e.fps * 4)) (e.enc_w * e.enc_h / 2)) in
    if n.1 then (record e1 { bs = length b.0 }, b.1) else (record e { nv12 = [] }, false)

unfoldable pub initialized : Answers → QsvEncoder → Option Param → QsvEncoder × Bool
unfolding allocate_buffers
initialized a e none = (e, false)
initialized a e (some par) =
    allocate_buffers a (record e { user_param = par; param = par; configured = true })

unfoldable pub configure : Answers → QsvEncoder → QsvEncoder × Bool
unfolding initialized param_for round_up_16
configure a e =
    let e1 = record e { enc_w = round_up_16 e.w; enc_h = round_up_16 e.h } in
    initialized a e1 (a.enc_init (param_for e1))

-- The early returns of Start, from what loading, opening the session and configuring left.
unfoldable pub start_ends :
    QsvEncoder × Bool → QsvEncoder × Bool → QsvEncoder × Bool → QsvEncoder × Bool
unfolding stop unload_runtime
start_ends (e, false) i c = (e, false)
start_ends (e, true) (f, false) c = (unload_runtime f, false)
start_ends (e, true) (f, true) (g, false) = (stop g, false)
start_ends (e, true) (f, true) (g, true) = (g, true)

unfoldable pub start : Answers → ℕ → ℕ → ℕ → ℕ → QsvEncoder → QsvEncoder × Bool
unfolding load_runtime init_session configure start_ends
start a w h fps bitrate e =
    let e0 = record e {
      w = w;
      h = h;
      fps = if fps == 0 then 30 else fps;
      bitrate = bitrate;
      keyframe_requested = true;
    } in
    let l = load_runtime a e0 in let i = init_session a l.0 in start_ends l i (configure a i.0)

unfoldable pub request_keyframe : QsvEncoder → QsvEncoder
request_keyframe e = record e { keyframe_requested = true }

unfoldable pub resize : Answers → ℕ → ℕ → QsvEncoder → QsvEncoder × Bool
unfolding start stop
resize a w h e =
    if not e.session || not e.configured then (e, false) else start a w h e.fps e.bitrate (stop e)

unfoldable pub set_bitrate : Answers → ℕ → QsvEncoder → QsvEncoder × Bool
unfolding with_rate
set_bitrate a bitrate e =
    let par = with_rate bitrate e.fps e.user_param in
    if not e.session || not e.configured || not e.exports.enc_reset
    then (e, false)
    else if a.reset par
    then (record e { param = par; bitrate = bitrate }, true)
    else (e, false)
