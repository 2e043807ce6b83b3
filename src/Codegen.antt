-- ===== src/Codegen.antt =====
-- src/bs_byte_codegen.cpp, src/bs_byte_codegen.h: the code generator that emits a function.
pub mod Address
pub mod State
pub mod Slots
pub mod Temporaries
pub mod Locals
pub mod Jumps
pub mod Layout
pub mod Patch
pub mod Emitted
pub mod Steps
pub mod Branches
pub mod Loops
pub mod Backpatch
pub mod Finish
pub mod Notes
pub mod Packed
pub mod Placed
pub mod Logic
pub mod Joined
