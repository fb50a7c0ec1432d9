-- ===== src/Artifact.antt =====
-- The domain of uploads and artifacts, and the port to the object storage.
pub mod Domain
pub mod Storage
pub mod Rows
pub mod Completion
pub mod Retry
