-- ===== src/Driver.antt =====
-- driver/src/Driver.cpp: the virtual display driver. Its parts are the children of this module.
pub mod Edid
pub mod Modes
pub mod Consumer
pub mod Chains
pub mod Options
pub mod Adapter
pub mod Processor
