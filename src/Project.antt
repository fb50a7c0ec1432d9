-- ===== src/Project.antt =====
-- Projects.
pub mod Domain
