-- ===== src/Batches.antt =====
-- internal/services/batches and internal/batchworker: batches of requests, run in the background.
pub mod Tables
pub mod Queries
pub mod Service
pub mod Worker
pub mod Cancels
pub mod Statuses
pub mod Claims
pub mod Progress
pub mod Ingest
