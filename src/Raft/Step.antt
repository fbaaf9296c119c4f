-- ===== src/Raft/Step.antt =====
-- One node in a cluster: every handler is a step, taken atomically under the node's mutex, and so is
-- a restart from the store after a crash between two handlers.
pub mod Kept
pub mod Handlers
pub mod Votes
use distributed_key_value_st.Base.{ℕ, String, Option, some, ◌≡◌, Bytes}
use distributed_key_value_st.Raft.Types.{
  Node, PersistentState, RequestVoteRequest, RequestVoteResponse, AppendEntriesRequest,
  AppendEntriesResponse, InstallSnapshotRequest, InstallSnapshotResponse,
}
use distributed_key_value_st.Raft.Election.{
  Election, new_node, handle_request_vote, on_vote_response, election_timeout, heartbeat_tick,
}
use distributed_key_value_st.Raft.Commit.{propose}
use distributed_key_value_st.Raft.Append.{handle_append_entries}
use distributed_key_value_st.Raft.Replicate.{on_append_response, on_snapshot_response}
use distributed_key_value_st.Raft.Snapshot.{handle_install_snapshot, compact_log, start}

module _ {S : Type 0} ⦃p : PersistentState S⦄ where
  pub data Step : Node S → Node S → Type 0 where
    vote_requested : (req : RequestVoteRequest) (n : Node S) → Step n (handle_request_vote req n).1
    entries_sent :
        (req : AppendEntriesRequest) (n : Node S) → Step n (handle_append_entries req n).1
    chunk_sent :
        (req : InstallSnapshotRequest) (n : Node S) → Step n (handle_install_snapshot req n).1
    timed_out :
        (n : Node S) (e : Election) (m : Node S) → election_timeout n ≡ some (e, m) → Step n m
    vote_answered :
        (resp : RequestVoteResponse) (e : Election) (n : Node S)
        → Step n (on_vote_response resp e n).1
    entries_answered :
        (peer : String) (req : AppendEntriesRequest) (resp : AppendEntriesResponse) (n : Node S)
        → Step n (on_append_response peer req resp n)
    chunk_answered :
        (peer : String) (req : InstallSnapshotRequest) (resp : InstallSnapshotResponse) (n : Node S)
        → Step n (on_snapshot_response peer req resp n).1
    heartbeat : (n : Node S) → Step n (heartbeat_tick n)
    proposed : (payload : Bytes) (n : Node S) → Step n (propose payload n).1
    compacted :
        (blob : Bytes) (index term : ℕ) (n : Node S) → Step n (compact_log blob index term n).1
    restarted : (n m : Node S) → start (new_node n.cfg n.storage) ≡ some m → Step n m

  pub data Reach (n : Node S) : Node S → Type 0 where
    here : Reach n n
    next : {m k : Node S} → Reach n m → Step m k → Reach n k
