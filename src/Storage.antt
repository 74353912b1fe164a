-- ===== src/Storage.antt =====
-- utils/event_format.py, data/ and scripts/: what is written to the log and to the database.
pub mod EventFormat
pub mod RunSequence
pub mod Backfill
mod StorageTests
