-- ===== src/Raft.antt =====
-- The package raft: its data, its helpers and one module for each group of handlers.
pub mod Types
pub mod Log
pub mod Election
pub mod Commit
pub mod Append
pub mod Replicate
pub mod Snapshot
pub mod MemState
pub mod Step
pub mod Cluster
pub mod Network
pub mod Accessors
pub mod Tests
