-- ===== src/Files.antt =====
-- internal/services/files: the files of tenants, as rows and blobs.
pub mod Tables
pub mod Service
pub mod Stored
pub mod Deletion
