-- ===== src/Auth.antt =====
-- Who may call the gateway: internal/auth, internal/accounts, internal/rbac, the middleware of the
-- public API and the request context that it builds.
pub mod ApiKey
pub mod RoundTrip
pub mod Words
pub mod Tables
pub mod Personal
pub mod Context
pub mod Middleware
pub mod Roles
pub mod Queries
pub mod PersonalTenants
pub mod Admission
pub mod Steps
pub mod Grants
