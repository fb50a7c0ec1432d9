-- ===== src/Tests.antt =====
-- Sample data, and the theorems at it.
mod Samples
mod Uploads
mod Publications
mod Commands
mod Members
mod Maintenance
mod Artifacts
mod Storage
mod Cursors
mod Organizations
mod Projects
mod Codes
mod Codecs
mod Logins
