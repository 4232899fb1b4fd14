-- ===== src/Hebrew.antt =====
-- crates/callora-core/src/hebrew.rs: numbers in Hebrew words, said with the right gender and read out of a transcript.
pub mod Words
pub mod Reading
pub mod RoundTrip
mod Tests
