-- ===== src/Store.antt =====
-- internal/storage: the store over bbolt.
pub mod Bolt
pub mod Result
pub mod Db
pub mod Records
pub mod Enrollments
pub mod Removal
pub mod Settings
pub mod Laws
pub mod Strip
pub mod Scope
pub mod Ops
pub mod Invariant
pub mod Deletion
pub mod Consistency
pub mod Memory
pub mod Guarantees
pub mod Reads
pub mod SettingsReads
pub mod Listing
pub mod Frame
mod Tests
