-- ===== src/Upload.antt =====
-- Upload sessions: api/upload_sessions.py.
pub mod Rows
pub mod Lifecycle
pub mod Payloads
pub mod Authorize
pub mod Create
pub mod Read
pub mod Sign
pub mod Parts
pub mod Complete
pub mod Publish
pub mod Cancel
pub mod Requests
