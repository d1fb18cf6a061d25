-- ===== src/Session.antt =====
-- main of host/src/main.cpp around the components: the handshake, the message of a video frame, and the loop that
-- drains what the tablet sent. A received payload is a list of bytes; `beyond` is the memory that follows it,
-- which InjectBatch may read.
pub mod Begin
pub mod Drain
pub mod Encoder
pub mod Inbound
pub mod Loop
pub mod Messages
pub mod Sound
use m_extender.Prelude.{
  ℕ, Bool, true, false, not, ◌&&◌, ◌||◌, List, [], ◌∷◌, ◌++◌, Option, none, some, length, ltb, leb,
  ◌==◌, if◌then◌else◌,
}
use m_extender.Prelude.Words.{u8, u16, u32}
use m_extender.Wire.{
  sp_version, sp_codec_h264, HandshakeAck, VideoFrame, encode_video, Control, control_size,
  decode_control, batch_size,
}
use m_extender.Wire.Msg
use m_extender.Payload.{EncodedFrame, build_video_payload}
use m_extender.Inject.{Injector, VirtualScreen, Call, inject_batch}

-- SP_CTL_SET_BITRATE.
abbrev pub ctl_set_bitrate : ℕ
ctl_set_bitrate = 1

-- sizeof(sp_handshake).
abbrev pub handshake_size : ℕ
handshake_size = 42

unfoldable pub clamp_bitrate : ℕ → ℕ
clamp_bitrate b = if ltb b 250000 then 250000 else if ltb 40000000 b then 40000000 else b

-- The acknowledgement for a capture of w by h pixels.
unfoldable pub handshake_ack : ℕ → ℕ → HandshakeAck
handshake_ack w h = record {
  proto_version = sp_version;
  caps = 0;
  mode_w = u16 w;
  mode_h = u16 h;
  mode_refresh = 60;
  codec = sp_codec_h264;
  profile = 0;
  bitrate = 12000000;
  fps = 30;
}

-- The answer to the first frame, `none` for "bad handshake".
unfoldable pub handshake : ℕ → ℕ → Option (ℕ × List ℕ) → Option HandshakeAck
unfolding handshake_ack
handshake w h none = none
handshake w h (some (type, payload)) =
    if not (type == Msg.handshake) || ltb (length payload) handshake_size
    then none
    else some (handshake_ack w h)

abbrev byte_of : Bool → ℕ
byte_of true = 1
byte_of false = 0

-- After a successful Encode: the SP_MSG_VIDEO_FRAME payload, `none` when there is nothing to send, and the
-- new keyframe_pending. `display` is cur_w and cur_h.
unfoldable pub video_message : Bool → Bool → ℕ × ℕ → EncodedFrame → Bool × Option (List ℕ)
video_message keep_raw keyframe_pending display ef =
    let keyframe = keyframe_pending || ef.keyframe in
    if ltb 0 (length ef.nals) || keep_raw
    then (
      false,
      some (
          encode_video record {
            keyframe = byte_of keyframe;
            codec = u8 ef.codec;
            display_w = display.0;
            display_h = display.1;
          }
          ++ build_video_payload (record ef { keyframe = keyframe })),
    )
    else (keyframe_pending, none)

-- What an inbound frame makes the host do.
pub data Action : Type 0 where
  inject : List Call → Action
  request_keyframe : Action
  set_bitrate : ℕ → Action

unfoldable pub on_control : Control → List Action
unfolding clamp_bitrate
on_control ctl =
    if ctl.type == ctl_set_bitrate then set_bitrate (clamp_bitrate ctl.value) ∷ [] else []

-- One turn of the inbound loop, from keyframe_pending.
unfoldable pub on_frame : Injector → VirtualScreen → List ℕ → Bool → ℕ × List ℕ → Bool × List Action
on_frame inj vs beyond pending (type, payload) =
    if type == Msg.input_batch && leb batch_size (length payload)
    then (pending, inject (inject_batch inj vs (payload ++ beyond)) ∷ [])
    else if type == Msg.keyframe_req
    then (true, request_keyframe ∷ [])
    else if type == Msg.control
    then (
      pending,
      (if leb control_size (length payload) then on_control (decode_control payload) else []),
    )
    else (pending, [])

-- The loop over the frames that ReadFrame gave until it gave none.
unfoldable pub drain :
    Injector → VirtualScreen → List ℕ → Bool → List (ℕ × List ℕ) → Bool × List Action
drain inj vs beyond pending [] = (pending, [])
drain inj vs beyond pending (f ∷ fs) =
    let (p, actions) = on_frame inj vs beyond pending f in
    let (q, rest) = drain inj vs beyond p fs in (q, actions ++ rest)
