-- ===== src/Buffer/RoundTrip.antt =====
-- What was written is read back: the words and spans, the pools, the names, the tokens and the
-- whole buffer.
pub mod Words
pub mod Pools
pub mod Records
pub mod Tokens
pub mod Names
pub mod Lines
pub mod Marks
pub mod Whole
pub mod Saved
pub mod Replayed
