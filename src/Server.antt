-- ===== src/Server.antt =====
-- The package server: what is committed is applied to the engine, and clients and watchers are told.
pub mod Watch
pub mod StateMachine
pub mod Recovery
pub mod WalState
pub mod Transport
pub mod KvServer
pub mod Tests
