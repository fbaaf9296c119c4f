-- ===== src/Storage.antt =====
-- The package storage: an LSM engine over immutable sorted files.
pub mod Search
pub mod Memtable
pub mod Codec
pub mod Merge
pub mod Engine
pub mod Sstable
pub mod Tests
