-- ===== src/Engine.antt =====
-- crates/callora-core/src/engine.rs: the conversation engine.
pub mod Config
pub mod Speech
pub mod Out
pub mod State
pub mod Env
pub mod Say
pub mod Fill
pub mod Summary
pub mod Flow
pub mod Handoff
pub mod Results
pub mod Understanding
pub mod Rules
pub mod Meta
pub mod Answer
pub mod Utterance
pub mod Agent
pub mod Frame
pub mod Started
pub mod Ended
pub mod Silence
pub mod Shortcuts
pub mod Conversation
mod Tests
