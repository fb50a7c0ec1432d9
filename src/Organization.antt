-- ===== src/Organization.antt =====
-- Companies and their members: the domain class, and the access rules over the tables.
pub mod Domain
pub mod Access
pub mod Ownership
