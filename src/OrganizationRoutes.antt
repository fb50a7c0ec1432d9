-- ===== src/OrganizationRoutes.antt =====
-- The routes on organizations, their invitations and their members: api/organizations.py.
pub mod Payloads
pub mod Events
pub mod Create
pub mod Invites
pub mod Acceptable
pub mod Accept
pub mod Members
pub mod Requests
