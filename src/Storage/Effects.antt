-- ===== src/Storage/Effects.antt =====
-- What a call of the store does to the views of the tenants.
pub mod Ingest
pub mod Distinct
pub mod Pending
pub mod Freeze
pub mod Submit
