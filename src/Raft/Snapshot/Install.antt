-- ===== src/Raft/Snapshot/Install.antt =====
-- What HandleInstallSnapshot does with a chunk.
use distributed_key_value_st.Base.{
  ℕ, ◌≤◌, ◌<◌, ◌≡◌, true, [], ◌∷◌, ◌++◌, max, none, length, arith, String, Bytes,
}
use distributed_key_value_st.Raft.Types.{
  Node, PersistentState, SnapshotRecvState, InstallSnapshotRequest, snapshot,
}
use distributed_key_value_st.Raft.Log.{log_at, last_log_index}
use distributed_key_value_st.Raft.Log.Read.{log_at_past}
use distributed_key_value_st.Raft.Election.{become_follower}
use distributed_key_value_st.Raft.Append.{accept_leader}
use distributed_key_value_st.Raft.Snapshot.{
  current_transfer, chunk_fits, install_snapshot, receive_chunk, handle_install_snapshot,
}

module _ {S : Type 0} ⦃p : PersistentState S⦄ where
  -- The node after a whole snapshot of `blob` up to `index` was installed into `n`.
  pub record Installed (blob : Bytes) (index term : ℕ) (n m : Node S) : Type 0 where
    pub base : m.last_included_index ≡ index
    pub base_term : m.last_included_term ≡ term
    pub held : length m.log ≡ 1
    pub last : last_log_index m ≡ index
    pub commit : m.commit_index ≡ max n.commit_index index
    pub sent : m.apply_ch ≡ n.apply_ch ++ snapshot blob index term ∷ []
    pub done : m.recv_snapshot ≡ none

  -- The store accepts the snapshot.
  abbrev pub Saves : Node S → Bytes → ℕ → ℕ → Type 0
  Saves n blob index term = (p.save_snapshot blob index term n.storage).1 ≡ true

  pub install_snapshot-Installed :
      (r : SnapshotRecvState) (n : Node S)
      → Saves n r.received r.last_included_index r.last_included_term
      → Installed r.received r.last_included_index r.last_included_term n (install_snapshot r n).1
        × ((install_snapshot r n).0 ≡ true)
  unfolding install_snapshot last_log_index
  install_snapshot-Installed r n ok = ground arith

  -- A transfer of one chunk, to a node of no later term whose snapshot is older.
  one_chunk :
      (req : InstallSnapshotRequest) (n : Node S)
      → n.current_term ≤ req.term
      → n.last_included_index < req.last_included_index
      → req.offset ≡ 0
      → req.done ≡ true
      → (handle_install_snapshot req n).1
        ≡ (install_snapshot
            (record {
              last_included_index = req.last_included_index;
              last_included_term = req.last_included_term;
              received = req.chunk;
            })
            (accept_leader req.term req.leader_id n)).1
  unfolding handle_install_snapshot receive_chunk current_transfer chunk_fits accept_leader
      become_follower
  one_chunk req n current older first last = ground arith

  accept_leader-commit :
      (t : ℕ) (id : String) (n : Node S) → (accept_leader t id n).commit_index ≡ n.commit_index
  unfolding accept_leader become_follower
  accept_leader-commit t id n = ground arith

  -- A snapshot that is newer than the node's own but ends before its commit index takes committed
  -- entries out of the node's log: the log ends at the snapshot, the commit index stays above it,
  -- and no index behind the snapshot can be read. The snapshot comes as one chunk, the sender's term
  -- is not stale, and the store can save.
  pub install_behind_commit :
      (req : InstallSnapshotRequest) (n : Node S)
      → ((b : Bytes) (i t : ℕ) (s : S) → (p.save_snapshot b i t s).1 ≡ true)
      → n.current_term ≤ req.term
      → n.last_included_index < req.last_included_index
      → req.last_included_index < n.commit_index
      → req.offset ≡ 0
      → req.done ≡ true
      → let m = (handle_install_snapshot req n).1 in
        (last_log_index m ≡ req.last_included_index)
        × (m.commit_index ≡ n.commit_index)
        × ((i : ℕ) → req.last_included_index < i → log_at m i ≡ none)
  install_behind_commit req n saves current older behind first last =
      let (i, _) =
        install_snapshot-Installed
          (record {
            last_included_index = req.last_included_index;
            last_included_term = req.last_included_term;
            received = req.chunk;
          })
          (accept_leader req.term req.leader_id n) (saves _ _ _ _) in
      rw (one_chunk req n current older first last) (
        i.last,
        omega (arith, i.commit, accept_leader-commit req.term req.leader_id n),
        λ j above. log_at_past _ j (omega (arith, i.base, i.held)),
      )
