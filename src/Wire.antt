-- ===== src/Wire.antt =====
-- The wire format of proto/protocol.h: constants, and the packed little-endian structs that the
-- host writes and reads by `reinterpret_cast` of a struct. A byte is a number below 256, and
-- `le k n` is a k-byte unsigned field on a little-endian machine.
pub mod Msg
pub mod Fields
pub mod RoundTrip
use m_extender.Prelude.{
  ℕ, zero, suc, ◌+◌, ◌*◌, ◌/◌, ◌%◌, List, [], ◌∷◌, ◌++◌, take, drop, replicate,
}

abbrev pub sp_magic : ℕ
sp_magic = 0x21325053

abbrev pub sp_version : ℕ
sp_version = 1

abbrev pub sp_codec_h264 : ℕ
sp_codec_h264 = 0

unfoldable pub le : ℕ → ℕ → List ℕ
le zero n = []
le (suc k) n = n % 256 ∷ le k (n / 256)

unfoldable pub un_le : List ℕ → ℕ
un_le [] = 0
un_le (b ∷ bs) = b + 256 * un_le bs

-- The k-byte field at an offset of a received buffer.
unfoldable pub field : ℕ → ℕ → List ℕ → ℕ
unfolding un_le
field off k bs = un_le (take k (drop off bs))

-- struct sp_header.
pub record Header : Type 0 where
  pub magic : ℕ
  pub version : ℕ
  pub type : ℕ
  pub seq : ℕ
  pub ts_us : ℕ
  pub payload_len : ℕ

abbrev pub header_size : ℕ
header_size = 24

unfoldable pub encode_header : Header → List ℕ
unfolding le
encode_header h =
    le 4 h.magic
    ++ (le 2 h.version ++ (le 2 h.type ++ (le 4 h.seq ++ (le 8 h.ts_us ++ le 4 h.payload_len))))

unfoldable pub decode_header : List ℕ → Header
unfolding field
decode_header bs = record {
  magic = field 0 4 bs;
  version = field 4 2 bs;
  type = field 6 2 bs;
  seq = field 8 4 bs;
  ts_us = field 12 8 bs;
  payload_len = field 20 4 bs;
}

-- struct sp_handshake_ack.
pub record HandshakeAck : Type 0 where
  pub proto_version : ℕ
  pub caps : ℕ
  pub mode_w : ℕ
  pub mode_h : ℕ
  pub mode_refresh : ℕ
  pub codec : ℕ
  pub profile : ℕ
  pub bitrate : ℕ
  pub fps : ℕ

unfoldable pub encode_ack : HandshakeAck → List ℕ
unfolding le
encode_ack a =
    le 2 a.proto_version
    ++ (le 4 a.caps
        ++ (le 2 a.mode_w
            ++ (le 2 a.mode_h
                ++ (le 2 a.mode_refresh
                    ++ (le 1 a.codec ++ (le 1 a.profile ++ (le 4 a.bitrate ++ le 2 a.fps)))))))

-- struct sp_video_frame; `reserved` is zero-initialised and never set.
pub record VideoFrame : Type 0 where
  pub keyframe : ℕ
  pub codec : ℕ
  pub display_w : ℕ
  pub display_h : ℕ

unfoldable pub encode_video : VideoFrame → List ℕ
unfolding le
encode_video v =
    le 1 v.keyframe ++ (le 1 v.codec ++ (le 2 0 ++ (le 4 v.display_w ++ le 4 v.display_h)))

-- struct sp_audio_frame.
pub record AudioFrame : Type 0 where
  pub sample_rate : ℕ
  pub codec : ℕ
  pub channels : ℕ
  pub bytes_per_sample : ℕ

unfoldable pub encode_audio : AudioFrame → List ℕ
unfolding le
encode_audio a =
    le 4 a.sample_rate ++ (le 1 a.codec ++ (le 1 a.channels ++ le 2 a.bytes_per_sample))

-- struct sp_control, of which the host reads the type and the value.
pub record Control : Type 0 where
  pub type : ℕ
  pub value : ℕ

abbrev pub control_size : ℕ
control_size = 8

unfoldable pub decode_control : List ℕ → Control
unfolding field
decode_control bs = record { type = field 0 1 bs; value = field 4 4 bs }

-- struct sp_input_event; the tilts are the 16-bit patterns of signed tenths of a degree.
pub record InputEvent : Type 0 where
  pub x : ℕ
  pub y : ℕ
  pub type : ℕ
  pub buttons : ℕ
  pub pointer_id : ℕ
  pub pressure : ℕ
  pub tilt_x : ℕ
  pub tilt_y : ℕ

abbrev pub event_size : ℕ
event_size = 12

abbrev pub batch_size : ℕ
batch_size = 4

unfoldable pub encode_event : InputEvent → List ℕ
unfolding le
encode_event e =
    le 2 e.x
    ++ (le 2 e.y
        ++ (le 1 e.type
            ++ (le 1 e.buttons
                ++ (le 1 e.pointer_id ++ (le 1 e.pressure ++ (le 2 e.tilt_x ++ le 2 e.tilt_y))))))

unfoldable pub decode_event : List ℕ → InputEvent
unfolding field
decode_event bs = record {
  x = field 0 2 bs;
  y = field 2 2 bs;
  type = field 4 1 bs;
  buttons = field 5 1 bs;
  pointer_id = field 6 1 bs;
  pressure = field 7 1 bs;
  tilt_x = field 8 2 bs;
  tilt_y = field 10 2 bs;
}
