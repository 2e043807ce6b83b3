-- ===== src/Cache.antt =====
-- src/bs_cache.cpp and src/bs_cache.h: the parse cache on disk, and the cache of parsers.
pub mod Miss
pub mod Bytes
pub mod State
pub mod Load
pub mod Lookup
pub mod Flush
pub mod Atomic
pub mod Success
pub mod RoundTrip
pub mod Reload
pub mod Kept
pub mod Served
pub mod Invariant
pub mod Safety
pub mod Whole
pub mod Verdict
pub mod Answers
pub mod Evict
pub mod History
pub mod Parser
