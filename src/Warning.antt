-- ===== src/Warning.antt =====
-- src/bs_warning.cpp and src/bs_warning.h: the registry of warnings.
pub mod Code
pub mod Number
pub mod Message
pub mod Registry
pub mod Position
pub mod Total
pub mod Order
pub mod Span
pub mod Levels
pub mod Settings
pub mod Sorted
