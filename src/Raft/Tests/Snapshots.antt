-- ===== src/Raft/Tests/Snapshots.antt =====
-- The theorems about restarts and snapshot transfers at concrete nodes.
use distributed_key_value_st.Base.{◌≡◌, refl, true, [], ◌∷◌, some, arith}
use distributed_key_value_st.Raft.Types.{Node, InstallSnapshotRequest, leader}
use distributed_key_value_st.Raft.MemState.{MemState, mem_state}
use distributed_key_value_st.Raft.Snapshot.{start}
use distributed_key_value_st.Raft.Election.{new_node}
use distributed_key_value_st.Raft.Snapshot.Recover.{Recovered, start_recovers}
use distributed_key_value_st.Raft.Snapshot.Transfer.{send_chunks, Transfer}
use distributed_key_value_st.Raft.Snapshot.Transfer.Whole.{Finished, send_chunks_installs}
use distributed_key_value_st.Raft.Tests.{node, config}

start_recovers_example :
    (m : Node MemState) × (start (new_node config node.storage) ≡ some m) × Recovered node.storage m
start_recovers_example = start_recovers config node.storage

-- The follower has committed index 3 and is sent a snapshot that ends at index 2.
abbrev ahead : Node MemState
ahead = record node { commit_index = 3 }

abbrev chunk : InstallSnapshotRequest
chunk = record {
  term = 2;
  leader_id = "n3";
  last_included_index = 2;
  last_included_term = 1;
  offset = 0;
  chunk = 7 ∷ [];
  done = true;
}

abbrev transfer : Transfer
transfer = record { term = 2; index = 9; snap_term = 2; blob = 1 ∷ 2 ∷ 3 ∷ []; leader_id = "n1" }

abbrev sender : Node MemState
sender = record node { role = leader }

send_chunks_installs_example :
    Finished
      (λ b i s store. refl)
      "n2"
      transfer
      sender
      node
      (send_chunks 1 "n2" transfer 0 (sender, node))
send_chunks_installs_example =
    send_chunks_installs (λ b i s store. refl) "n2" transfer 0 sender node refl refl (omega arith)
      (omega arith) (omega arith)
