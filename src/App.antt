-- ===== src/App.antt =====
-- internal/app: the container that the handlers and the workers share.
pub mod RateLimits
pub mod Overrides
pub mod Acquire
pub mod Leases
pub mod ModelAccess
pub mod Allowed
