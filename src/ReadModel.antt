-- ===== src/ReadModel.antt =====
-- The read models of packages/domain-tenancy, and the gate of packages/infra-fastapi on the status of
-- a tenant.
pub mod TenantList
pub mod TenantConfig
pub mod Gate
pub mod UserProfile
mod Tests
