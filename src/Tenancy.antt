-- ===== src/Tenancy.antt =====
-- The tenant's lifecycle, app/domain/entities/tenant.py, and the permission checks of
-- app/application/services/authorization_service.py.
pub mod Lifecycle
pub mod Permission
pub mod Roles
