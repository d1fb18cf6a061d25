-- ===== src/Encode/Nvenc.antt =====
-- NvEncoder of host/src/encode/nvenc.h and nvenc.cpp: its state and every operation. The answers of the NVENC library
-- are an argument of each call; a handle is a Bool, its presence.
pub mod Params
pub mod Resized
use m_extender.Prelude.{
  ℕ, ◌+◌, ◌*◌, ◌/◌, ◌≡◌, Bool, true, false, not, ◌&&◌, ◌||◌, List, [], ◌∷◌, Option, none, some,
  length, ltb, ◌==◌, if◌then◌else◌,
}
use m_extender.Prelude.Words.{u32, u64}
use m_extender.Payload.{EncodedFrame, nvenc_nals}

pub record NvEncoder : Type 0 where
  pub w : ℕ
  pub h : ℕ
  pub fps : ℕ
  pub bitrate : ℕ
  pub keyframe_requested : Bool
  pub nvenc_dll : Bool
  pub device : Bool
  pub encoder : Bool
  pub api : Bool
  pub registered_input : Bool
  pub bitstream_buffer : Bool
  pub frame_index : ℕ
  pub configured : Bool

-- What the calls of LoadApi report: the library, its export, the status of that function and the list it gives.
pub record Loading : Type 0 where
  pub library : Bool
  pub create_instance : Bool
  pub succeeds : Bool
  pub list : Bool

abbrev pub loads : Loading → Bool
loads l = l.library && (l.create_instance && (l.succeeds && l.list))

-- What the library reports to the calls of one operation. `initialize` is told whether there is an encoder handle.
pub record Answers : Type 0 where
  pub load : Loading
  pub open_session : Bool
  pub initialize : Bool → Bool
  pub register_resource : Bool
  pub create_bitstream : Bool
  pub map_input : Bool
  pub encode_picture : Bool
  pub lock : Bool
  pub reconfigure : Bool
  pub is_idr : Bool
  pub bitstream : List ℕ

-- LoadApi: a library whose function list cannot be had stays loaded.
unfoldable pub load_api : Loading → NvEncoder → NvEncoder × Bool
load_api l e = (record e { nvenc_dll = l.library; api = loads l || e.api }, loads l)

unfoldable pub start : Answers → ℕ → ℕ → ℕ → ℕ → NvEncoder → NvEncoder × Bool
unfolding load_api
start a w h fps bitrate e =
    load_api a.load
      (record e { w = w; h = h; fps = fps; bitrate = bitrate; keyframe_requested = true })

-- The first lines of Encode and OpenSession; a session that could not be opened leaves the handle as it was.
unfoldable pub ensure_session : Answers → NvEncoder → NvEncoder × Bool
ensure_session a e =
    if e.device
    then (e, true)
    else (record e { device = true; encoder = a.open_session || e.encoder }, a.open_session)

-- Configure.
unfoldable pub ensure_configured : Answers → NvEncoder → NvEncoder × Bool
ensure_configured a e =
    if e.configured
    then (e, true)
    else (record e { configured = a.initialize e.encoder }, a.initialize e.encoder)

-- RegisterInput.
unfoldable pub ensure_registered : Answers → NvEncoder → NvEncoder × Bool
ensure_registered a e =
    if e.registered_input
    then (e, true)
    else (record e { registered_input = a.register_resource }, a.register_resource)

-- CreateBitstream.
unfoldable pub ensure_bitstream : Answers → NvEncoder → NvEncoder × Bool
ensure_bitstream a e =
    if e.bitstream_buffer
    then (e, true)
    else (record e { bitstream_buffer = a.create_bitstream }, a.create_bitstream)

-- One step, then the next if it succeeded.
unfoldable pub and_then : NvEncoder × Bool → (NvEncoder → NvEncoder × Bool) → NvEncoder × Bool
and_then (e, true) next = next e
and_then (e, false) next = (e, false)

unfoldable pub prepare : Answers → NvEncoder → NvEncoder × Bool
unfolding and_then
prepare a e =
    and_then (and_then (and_then (ensure_session a e) (ensure_configured a)) (ensure_registered a))
      (ensure_bitstream a)

-- A picture as it is submitted: forced to be a keyframe, its index, its time stamp in 64 bits. The frame
-- rate is not 0: the host starts every encoder with 30.
pub record Picture : Type 0 where
  pub force_idr : Bool
  pub index : ℕ
  pub time_stamp : ℕ

-- What Encode submitted, if anything, and the frame it gave when it returned true.
pub record Encoded : Type 0 where
  pub submitted : Option Picture
  pub frame : Option EncodedFrame

abbrev pub no_frame : Encoded
no_frame = record { submitted = none; frame = none }

unfoldable pub submit : Answers → NvEncoder → NvEncoder × Encoded
submit a e =
    let nals = nvenc_nals a.bitstream in
    if a.map_input
    then (
      record e { frame_index = u32 (e.frame_index + 1); keyframe_requested = false },
      record {
        submitted = some record {
          force_idr = e.keyframe_requested;
          index = e.frame_index;
          time_stamp = u64 (e.frame_index * (10000000 / e.fps));
        };
        frame =
            if a.encode_picture && a.lock && ltb 0 (length nals)
            then some record { keyframe = a.is_idr; codec = 0; nals = nals; raw = [] }
            else none;
      },
    )
    else (e, no_frame)

unfoldable pub prepared : Answers → NvEncoder × Bool → NvEncoder × Encoded
unfolding submit
prepared a (e, true) = submit a e
prepared a (e, false) = (e, no_frame)

unfoldable pub encode : Answers → NvEncoder → NvEncoder × Encoded
encode a e = if e.api then prepared a (prepare a e) else (e, no_frame)

unfoldable pub request_keyframe : NvEncoder → NvEncoder
request_keyframe e = record e { keyframe_requested = true }

unfoldable pub set_bitrate : Answers → ℕ → NvEncoder → NvEncoder × Bool
set_bitrate a bitrate e =
    if not e.configured || not e.api
    then (e, false)
    else (record e { bitrate = bitrate }, a.reconfigure)

unfoldable pub stop : NvEncoder → NvEncoder
stop e =
    if e.api
    then record e {
      registered_input = false;
      bitstream_buffer = false;
      encoder = false;
      api = false;
      nvenc_dll = false;
      configured = false;
    }
    else e

unfoldable pub resize : Answers → ℕ → ℕ → NvEncoder → NvEncoder × Bool
unfolding stop start
resize a w h e = if e.configured then start a w h e.fps e.bitrate (stop e) else (e, false)
