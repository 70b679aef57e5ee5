-- ===== src/Api.antt =====
-- backend/app/api: the HTTP handlers. A handler takes the text of the `Authorization` header and its
-- body, which pydantic has validated, and runs in one session.
pub mod Requests
pub mod Bearer
pub mod Auth
pub mod Admin
pub mod Provider
pub mod Tenant
pub mod Cases
pub mod World
pub mod Rules
pub mod System
pub mod Pipeline
pub mod Kept
