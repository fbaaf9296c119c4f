-- ===== src/Raft/Tests.antt =====
-- A three-node cluster at work: the data that the tests of the package share.
pub mod Followers
pub mod Leaders
pub mod Snapshots
mod Terms
pub mod Voters
use distributed_key_value_st.Base.{ℕ, String, [], ◌∷◌, none, List}
use distributed_key_value_st.Raft.Types.{
  Node, LogEntry, entry_normal, Config, follower, leader, unset, running, AppendEntriesRequest,
}
use distributed_key_value_st.Raft.Log.{sentinel}
use distributed_key_value_st.Raft.MemState.{MemState}

abbrev pub entry : ℕ → ℕ → LogEntry
entry i t = record { index = i; term = t; payload = i ∷ []; entry_type = entry_normal }

abbrev pub config : Config
config = record { id = "n1"; peers = ("n2", "host2") ∷ ("n3", "host3") ∷ [] }

-- A node in term 2 with the given entries behind a sentinel at index 0, in memory and in the store.
abbrev pub node_with : List LogEntry → Node MemState
node_with es = record {
  cfg = config;
  current_term = 2;
  voted_for = "n3";
  log = sentinel 0 0 ∷ es;
  last_included_index = 0;
  last_included_term = 0;
  role = follower;
  leader_id = "";
  commit_index = 1;
  recv_snapshot = none;
  next_index = [];
  match_index = [];
  storage = record {
    term = 2;
    voted = "n3";
    entries = es;
    snapshot = [];
    last_included_index = 0;
    last_included_term = 0;
  };
  election_timer = running;
  heartbeat_timer = unset;
  apply_ch = [];
  spawned = [];
}

abbrev pub node : Node MemState
node = node_with (entry 1 1 ∷ entry 2 1 ∷ entry 3 1 ∷ [])

-- The leader of term 2 sends entries from index `prev` + 1 on.
abbrev pub append_from : ℕ → ℕ → List LogEntry → AppendEntriesRequest
append_from prev prev_term es = record {
  term = 2;
  leader_id = "n3";
  prev_log_index = prev;
  prev_log_term = prev_term;
  entries = es;
  leader_commit = 2;
}
