-- ===== src/Ingest.antt =====
-- lib/library/services/ingest-service.ts and jobs-service.ts of deedlit.dev.comfyhelper.
pub mod Jobs
pub mod Single
pub mod Blame
pub mod Run
pub mod Account
pub mod Complete
pub mod Follow
pub mod Again
