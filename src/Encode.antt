-- ===== src/Encode.antt =====
-- The encoders below host/src/encode.
pub mod Buffers
pub mod Color
pub mod Nvenc
pub mod Qsv
pub mod Amf
pub mod Null
