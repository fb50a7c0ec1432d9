-- ===== src/Auth.antt =====
-- The login of a browser: auth/bff.py.
pub mod Sessions
pub mod Memory
pub mod Redis
pub mod Run
pub mod Service
