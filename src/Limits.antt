-- ===== src/Limits.antt =====
-- internal/limits: request, token and concurrency limits kept in Redis.
pub mod Redis
pub mod Limiter
pub mod Counters
pub mod Window
pub mod Quota
pub mod Semaphore
pub mod Slots
