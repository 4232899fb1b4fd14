-- ===== src/Call.antt =====
-- The state of a call.
pub mod Run
