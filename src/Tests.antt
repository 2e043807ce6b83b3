-- ===== src/Tests.antt =====
-- Runs of the definitions on concrete inputs, and the theorems applied to them.
pub mod Engine
pub mod BufferRuns
pub mod WarningRuns
pub mod TokenRuns
pub mod SettingRuns
pub mod SortRuns
pub mod CacheRuns
pub mod CodegenRuns
