-- ===== src/Wire/Msg.antt =====
-- The message types of proto/protocol.h (SP_MSG_*), by the value of `sp_header.type`.
use m_extender.Prelude.{ℕ}

abbrev pub handshake : ℕ
handshake = 1

abbrev pub handshake_ack : ℕ
handshake_ack = 2

abbrev pub video_frame : ℕ
video_frame = 3

abbrev pub keyframe_req : ℕ
keyframe_req = 4

abbrev pub input_batch : ℕ
input_batch = 5

abbrev pub control : ℕ
control = 6

abbrev pub audio_frame : ℕ
audio_frame = 7

abbrev pub error : ℕ
error = 8
