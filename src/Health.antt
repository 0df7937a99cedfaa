-- ===== src/Health.antt =====
-- internal/health: the monitor of the routes.
pub mod Monitor
pub mod Recovery
