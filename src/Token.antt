-- ===== src/Token.antt =====
-- Tokens: src/bs_tokenizer.h and the tables of src/bs_tokenizer.cpp.
pub mod Types
pub mod Index
pub mod Names
pub mod Data
pub mod Classes
pub mod Source
pub mod Laws
pub mod Words
pub mod Keywords
