-- ===== src/Storage.antt =====
-- internal/storage/store.go: evidence, batches and their submission, kept in one database.
pub mod Types
pub mod Bolt
pub mod Records
pub mod Ingest
pub mod Documents
pub mod Freeze
pub mod Submit
pub mod Export
pub mod Open
pub mod View
pub mod Tenants
pub mod State
pub mod Equal
pub mod Reading
pub mod Writing
pub mod Draws
pub mod Effects
pub mod Persist
pub mod History
