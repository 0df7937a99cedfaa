-- ===== src/Items.antt =====
-- What runs one item of a batch, in internal/batchworker/worker.go.
pub mod Requests
pub mod Embeddings
pub mod Images
pub mod Chat
pub mod Execute
pub mod Slots
pub mod Leases
