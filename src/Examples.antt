-- ===== src/Examples.antt =====
-- Runs at concrete inputs: the theorems of the other modules applied where their conditions hold.
pub mod Net
pub mod Streams
pub mod Main
pub mod Capture
pub mod Audio
pub mod Driver
pub mod Input
pub mod Encoders
pub mod Gpu
pub mod Options
pub mod Device
pub mod Start
pub mod Rounds
pub mod Session
pub mod Encoding
