-- ===== src/Buffer.antt =====
-- src/bs_tokenizer_buffer.h and src/bs_tokenizer_buffer.cpp: tokens in binary form.
pub mod Format
pub mod Pool
pub mod Write
pub mod Save
pub mod State
pub mod Load
pub mod Ensures
pub mod Safety
pub mod RoundTrip
pub mod Replay
