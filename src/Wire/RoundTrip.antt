-- ===== src/Wire/RoundTrip.antt =====
-- The structs of proto/protocol.h read back from the bytes that were written.
use m_extender.Prelude.{ℕ, ◌^◌, ◌<◌, ◌≡◌, refl, List, ◌++◌, length, arith}
use m_extender.Wire.{
  Header, encode_header, decode_header, header_size, InputEvent, encode_event, decode_event,
  event_size,
}

-- Every field fits its width.
pub record HeaderFits (h : Header) : Type 0 where
  pub magic : h.magic < 2 ^ 32
  pub version : h.version < 2 ^ 16
  pub type : h.type < 2 ^ 16
  pub seq : h.seq < 2 ^ 32
  pub ts_us : h.ts_us < 2 ^ 64
  pub payload_len : h.payload_len < 2 ^ 32

pub length-encode_header : (h : Header) → length (encode_header h) ≡ header_size
unfolding encode_header
length-encode_header h = refl

-- A header whose fields fit their widths reads back from its 24 bytes, whatever follows them.
pub decode_header-encode_header :
    (h : Header) (rest : List ℕ) → HeaderFits h → decode_header (encode_header h ++ rest) ≡ h
unfolding encode_header decode_header
decode_header-encode_header h rest f = ground arith

pub record EventFits (e : InputEvent) : Type 0 where
  pub x : e.x < 2 ^ 16
  pub y : e.y < 2 ^ 16
  pub type : e.type < 256
  pub buttons : e.buttons < 256
  pub pointer_id : e.pointer_id < 256
  pub pressure : e.pressure < 256
  pub tilt_x : e.tilt_x < 2 ^ 16
  pub tilt_y : e.tilt_y < 2 ^ 16

pub length-encode_event : (e : InputEvent) → length (encode_event e) ≡ event_size
unfolding encode_event
length-encode_event e = refl

pub decode_event-encode_event :
    (e : InputEvent) (rest : List ℕ) → EventFits e → decode_event (encode_event e ++ rest) ≡ e
unfolding encode_event decode_event
decode_event-encode_event e rest f = ground arith
