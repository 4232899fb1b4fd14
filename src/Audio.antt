-- ===== src/Audio.antt =====
-- crates/callora-audio and crates/callora-runtime/src/barge.rs: the caller's audio.
pub mod Floats
pub mod Vad
pub mod Barge
pub mod Mulaw
pub mod Bounds
pub mod Playout
mod Tests
