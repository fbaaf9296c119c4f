-- ===== src/Raft/Snapshot/Transfer.antt =====
-- raft/node.go: the loop of sendSnapshotToPeer against HandleInstallSnapshot.
pub mod Chunk
pub mod Whole
use distributed_key_value_st.Base.{
  ◌*◌, subst, ◌⊎◌, ℕ, zero, suc, ◌+◌, ◌-◌, ◌≤◌, ◌<◌, ◌≡◌, refl, sym, ap, ◌∙◌, true, false, List, [],
  ◌∷◌, ◌++◌, max, min, Option, none, some, ltb, leb, ◌==◌, if◌then◌else◌, length, take, drop,
  take-all, take-add, length-take, arith, String, Bool-cases, inl, inr, Bytes,
}
use distributed_key_value_st.Raft.Types.{
  Node, PersistentState, SnapshotRecvState, InstallSnapshotRequest, ApplyMsg, snapshot, Role,
  leader,
}
use distributed_key_value_st.Raft.Log.{log_at, last_log_index, sentinel}
use distributed_key_value_st.Raft.Election.{become_follower}
use distributed_key_value_st.Raft.Append.{accept_leader}
use distributed_key_value_st.Raft.Replicate.{
  snapshot_chunk, snapshot_chunk_size, record_match, on_snapshot_response,
}
use distributed_key_value_st.Raft.Snapshot.{
  current_transfer, chunk_fits, install_snapshot, receive_chunk, handle_install_snapshot,
}
use distributed_key_value_st.Raft.Snapshot.Install.{Installed, Saves, install_snapshot-Installed}

-- What sendSnapshotToPeer has read before its loop.
pub record Transfer : Type 0 where
  pub term : ℕ
  pub index : ℕ
  pub snap_term : ℕ
  pub blob : Bytes
  pub leader_id : String

unfoldable pub chunk_at : Transfer → ℕ → InstallSnapshotRequest
chunk_at t offset = snapshot_chunk t.term t.index t.snap_term t.blob t.leader_id offset

module _ {S : Type 0} ⦃p : PersistentState S⦄ where
  -- The loop from `offset` on, with a transport that delivers each chunk to the follower.
  unfoldable pub send_chunks : ℕ → String → Transfer → ℕ → Node S × Node S → Node S × Node S
  send_chunks zero peer t offset nf = nf
  send_chunks (suc fuel) peer t offset (n, f) =
      let req = chunk_at t offset in
      let (resp, f') = handle_install_snapshot req f in
      let (more, n') = on_snapshot_response peer req resp n in
      let rest =
        send_chunks fuel peer t (min (offset + snapshot_chunk_size) (length t.blob)) (n', f') in
      if more then rest else (n', f')
