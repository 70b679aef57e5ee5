-- ===== src/Repositories.antt =====
-- backend/app/db/repositories.py: the tenant-scoped repositories, one module each.
pub mod Tenants
pub mod Users
pub mod Tokens
pub mod Rules
pub mod Cases
pub mod Investigations
pub mod Incidents
