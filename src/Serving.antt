-- ===== src/Serving.antt =====
-- What the HTTP handlers of internal/httpserver/public and the items of internal/batchworker share: the
-- container with the store of replies, and the guards around the calls of providers.
pub mod Node
pub mod Guards
pub mod Slots
