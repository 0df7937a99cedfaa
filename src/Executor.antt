-- ===== src/Executor.antt =====
-- internal/executor: a chat completion, from the choice of routes to the record of its usage.
pub mod Chat
pub mod Slots
pub mod Fallback
