-- ===== src/Lib.antt =====
-- A verification library for a distributed key-value store on the Raft consensus algorithm, written in
-- Go. A node (raft/node.go) keeps a replicated log and sends what is committed to the state machine
-- (server/statemachine.go), which applies it to an LSM engine (storage/engine.go), answers the clients
-- that wait and tells the watchers (server/watch.go). Leaders replicate by AppendEntries and send
-- snapshots of the engine to peers that are far behind.
--
-- Raft: one node of a cluster, raft/node.go, over an interface for its store.
--   Raft.Types: the messages (proto/raftkv.proto) and the state. `Node S` is the struct Node over a
--     store of type `S`; `PersistentState S` is the interface of that name, an instance argument of
--     whatever writes to the store. What the node sends on ApplyCh is kept in `apply_ch` and the
--     goroutines that it starts in `spawned`, oldest first.
--   Raft.Log: logPos, lastLogIndex, lastLogTerm, quorum, candidateLogUpToDate. `log_at` is the form in
--     which every function reads the log.
--   Raft.Election: NewNode, the timers, becomeLeader, becomeFollower, startElection with the body of
--     its goroutines, HandleRequestVote.
--   Raft.Commit: maybeAdvanceCommit, advanceCommitTo, Propose.
--   Raft.Append: HandleAppendEntries.
--   Raft.Replicate: replicateToPeer and sendSnapshotToPeer, each split at its call of the transport.
--   Raft.Snapshot: HandleInstallSnapshot, CompactLog, Start; Raft.Snapshot.Transfer joins the two ends
--     of a transfer.
--   Raft.MemState: raft/memstate.go, the store that never fails.
--   Raft.Step: all handlers, and a restart from the store, as one step relation. Raft.Cluster: the
--     histories of the nodes of a cluster and the votes in them. Raft.Network: raft/memtransport.go.
--     Raft.Accessors: what other packages read of a node.
-- Storage: the package storage.
--   Storage.Memtable, over Storage.Search (sort.Search of the Go library): storage/memtable.go.
--   Storage.Merge: MergeEntries of storage/sstable.go. Storage.Codec: the wire format of
--     storage/snapshot.go.
--   Storage.Sstable: the table files of storage/sstable.go, byte for byte, with their Bloom filter.
--   Storage.Engine: storage/engine.go and the Snapshot and LoadSnapshot of storage/snapshot.go, over the
--     interface `Sstables` for table files, which Storage.Sstable.Laws fills. Storage.Engine.View says which map an engine stands for:
--     its operations are compared with that map.
-- Wal: wal/wal.go, the write-ahead log as a directory of segment files, over the Marshal and Unmarshal
--   of the protobuf library. Wal.Record is the framing of a record and readSegment; Wal.Holds says which
--   entries the segments hold.
-- Server: Server.WalState is server/walstate.go, the store of a node on disk, compared with the store in
--   memory in Server.WalState.Refine. Server.StateMachine is server/statemachine.go, over a node and an engine; Server.Watch is
--   server/watch.go; Server.Recovery is a crash after a snapshot, of node and engine together.
--   Server.KvServer is server/kvserver.go, the handlers of requests, with a write split where it blocks.
--   Server.Transport is server/transport.go, over functions for a dial, a client and its calls.
-- Client: the retry loops and redirectFirst of client/main.go, over a function for the RPC.
-- Raft.Tests, Storage.Tests, Wal.Tests, Server.Tests and Client.Tests have the theorems at concrete data. Each
-- module has children named for what they prove.
--
-- A handler is one step since it runs under the node's mutex; an RPC is two, the part before the call
-- of the transport and the part after it, on whatever the node has become; a compaction is two in the
-- same way. uint64 indexes, terms and counters are natural numbers: indexes and counters grow by one
-- at a time, and what a term near 2 ^ 64 in a message would do is left out. Segments of the log stand in
-- the order of their first indexes, which is that of their names below 10 ^ 16. The
-- uint32 lengths of the wire format wrap around. Loops are structural recursion or have fuel: one unit
-- for each chunk in the loop of sendSnapshotToPeer, the length of the slice for the binary search, the
-- number of entries for the merge, and the number of bytes for the decoders of snapshots, table files and
-- segments. The JSON of server/statemachine.go is a parameter, and so are the size at which a segment of
-- the log is full (8 MiB in wal/wal.go) and the room on the disk for a table file.
--
-- Left out are log lines, timer durations, metrics and callbacks, shutdown, file names and the removal
-- of files, buffering and fsync, I/O errors where nothing is said of them, gRPC itself, the Watch
-- handler, the flags and output of client/main.go and main.go, and
-- proto's generated code.
pub mod Base
pub mod Raft
pub mod Storage
pub mod Wal
pub mod Server
pub mod Client
