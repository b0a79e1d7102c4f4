-- ===== src/Events.antt =====
-- Events: their rows and hashes, the table with its queries, and the services that append to it.
pub mod Row
pub mod Store
pub mod Entity
pub mod Chronological
pub mod Schema
pub mod Schemas
pub mod Transition
pub mod Create
pub mod Bulk
pub mod Chain
