-- ===== src/Audio.antt =====
-- host/src/audio/capture.h and capture.cpp: WASAPI packets are converted to stereo, resampled, cut into frames
-- of 1024 stereo samples and queued. An int16_t is its 16-bit pattern where it is only moved.
pub mod Convert
pub mod Resampler
pub mod Queue
pub mod Adts
pub mod Thread
pub mod Aac
pub mod Rounds
