-- ===== src/ArtifactRoutes.antt =====
-- The routes on artifacts: api/artifacts.py.
pub mod Visible
pub mod Download
pub mod Delete
pub mod Lifecycle
pub mod Histories
pub mod Pages
