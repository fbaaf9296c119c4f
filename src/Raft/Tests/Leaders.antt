-- ===== src/Raft/Tests/Leaders.antt =====
-- The theorems about a leader at a concrete node.
use distributed_key_value_st.Base.{◌≡◌, refl, false, [], ◌∷◌, arith, ◌⊎◌}
use distributed_key_value_st.Raft.Types.{AppendEntriesResponse, peer_get, Node, leader, command}
use distributed_key_value_st.Raft.Log.{sentinel, last_log_index}
use distributed_key_value_st.Raft.MemState.{MemState, mem_state}
use distributed_key_value_st.Raft.Commit.{advance_commit_to, maybe_advance_commit}
use distributed_key_value_st.Raft.Commit.Majority.{Waits, Commits, maybe_advance_commit_lem}
use distributed_key_value_st.Raft.Commit.Applied.{advance_commit_to_sends}
use distributed_key_value_st.Raft.Replicate.{append_request, send_entries, replicate_to_peer}
use distributed_key_value_st.Raft.Replicate.Livelock.{
  Stuck, exchanges, lagging_follower_never_gets_snapshot,
}
use distributed_key_value_st.Raft.Tests.{entry, node, node_with}

-- The leader of term 2, whose entry at index 3 peer n2 holds too.
abbrev leader_node : Node MemState
leader_node = record (node_with (entry 1 1 ∷ entry 2 1 ∷ entry 3 2 ∷ [])) {
  role = leader;
  next_index = ("n2", 4) ∷ ("n3", 1) ∷ [];
  match_index = ("n2", 3) ∷ ("n3", 0) ∷ [];
}

maybe_advance_commit_lem_example :
    Waits leader_node (maybe_advance_commit leader_node)
    ⊎ Commits leader_node (maybe_advance_commit leader_node)
maybe_advance_commit_lem_example = maybe_advance_commit_lem leader_node

advance_commit_to_sends_example :
    (advance_commit_to 3 leader_node).apply_ch ≡ command (entry 2 1) ∷ command (entry 3 2) ∷ []
advance_commit_to_sends_example =
    advance_commit_to_sends leader_node 3 (omega arith) (omega arith) (omega arith)

abbrev hint : AppendEntriesResponse
hint = record { term = 2; success = false; match_index = 0; conflict_term = 0; conflict_index = 1 }

-- The leader's snapshot ends at index 5; the follower's log ends at index 3.
abbrev compacted_leader : Node MemState
compacted_leader = record leader_node {
  log = sentinel 5 2 ∷ entry 6 2 ∷ [];
  last_included_index = 5;
  last_included_term = 2;
  commit_index = 6;
  next_index = ("n2", 6) ∷ ("n3", 7) ∷ [];
}

node-Stuck : Stuck "n2" compacted_leader node
unfolding peer_get last_log_index
node-Stuck = record { leads = refl; next = refl; short = omega arith; current = omega arith }

lagging_follower_never_gets_snapshot_example :
    let after = exchanges 10 "n2" (compacted_leader, node) in
    (replicate_to_peer "n2" after.0 ≡ send_entries (append_request 6 after.0))
    × (last_log_index after.1 ≡ last_log_index node)
lagging_follower_never_gets_snapshot_example =
    lagging_follower_never_gets_snapshot 10 "n2" compacted_leader node node-Stuck
