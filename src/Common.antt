-- ===== src/Common.antt =====
-- Code that all routes share: idempotent commands, the audit trail, the outbox, the settings.
pub mod Libraries
pub mod Settings
pub mod Reliability
