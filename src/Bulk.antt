-- ===== src/Bulk.antt =====
-- The bulk operations of lib/library in deedlit.dev.comfyhelper.
pub mod Delete
pub mod Patch
pub mod Move
