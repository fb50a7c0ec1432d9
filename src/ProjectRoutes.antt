-- ===== src/ProjectRoutes.antt =====
-- The routes on projects and their members: api/projects.py.
pub mod Payloads
pub mod Versions
pub mod Access
pub mod Rows
pub mod Create
pub mod Cursors
pub mod Pages
pub mod Changes
pub mod Updates
pub mod Members
pub mod Requests
