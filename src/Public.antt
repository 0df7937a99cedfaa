-- ===== src/Public.antt =====
-- The handlers of internal/httpserver/public.
pub mod Reply
pub mod Chat
pub mod Embeddings
pub mod Slots
pub mod Replay
