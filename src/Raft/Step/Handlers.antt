-- ===== src/Raft/Step/Handlers.antt =====
-- raft/node.go: what each handler does to the term, the vote and the stored hard state.
use distributed_key_value_st.Base.{
  ℕ, ◌+◌, ◌≤◌, ◌≡◌, refl, ap, [], ◌∷◌, ◌++◌, some, length, String, eq_iff, arith, Option-cases, inl,
  inr, Bytes,
}
use distributed_key_value_st.Raft.Types.{
  Node, LogEntry, PersistentState, RequestVoteRequest, RequestVoteResponse, AppendEntriesRequest,
  AppendEntriesResponse, InstallSnapshotRequest, InstallSnapshotResponse, SnapshotRecvState,
}
use distributed_key_value_st.Raft.Election.{
  Election, new_node, handle_request_vote, decide_vote, become_follower, on_vote_response,
  election_timeout, heartbeat_tick, send_heartbeats, reset_election_timer,
}
use distributed_key_value_st.Raft.Commit.{maybe_advance_commit, propose, append_own, own_entry}
use distributed_key_value_st.Raft.Append.{accept_leader, accept_entries, handle_append_entries}
use distributed_key_value_st.Raft.Replicate.{
  record_match, back_up_peer, on_append_response, on_snapshot_response,
}
use distributed_key_value_st.Raft.Snapshot.{
  install_snapshot, receive_chunk, current_transfer, handle_install_snapshot, compact_log, start,
}
use distributed_key_value_st.Raft.Step.Kept.{
  KeepsHardState, HardSynced, Kept, Kept-refl, Kept-trans, Kept-frame, become_follower-Kept,
  become_leader-Kept, start_election-Kept, maybe_advance_commit-Kept, accept_leader-Kept,
  accept_entries-Kept,
}

module _ {S : Type 0} ⦃p : PersistentState S⦄ (laws : KeepsHardState p) where
  pub decide_vote-Kept : (req : RequestVoteRequest) (n : Node S) → Kept n (decide_vote req n).1
  unfolding decide_vote
  decide_vote-Kept req n = ground (
    arith,
    laws.saved n.current_term req.candidate_id n.storage,
    eq_iff n.voted_for "",
    eq_iff n.voted_for req.candidate_id,
  )

  pub decide_vote_newer-Kept :
      (req : RequestVoteRequest) (n : Node S)
      → n.current_term ≤ req.term
      → Kept n (decide_vote req (become_follower req.term n)).1
  decide_vote_newer-Kept req n h =
      Kept-trans (become_follower-Kept laws req.term n h) (decide_vote-Kept req _)

  pub handle_request_vote-Kept :
      (req : RequestVoteRequest) (n : Node S) → Kept n (handle_request_vote req n).1
  unfolding handle_request_vote
  handle_request_vote-Kept req n =
      ground (arith, Kept-refl n, decide_vote-Kept req n, decide_vote_newer-Kept req n)

  pub accepted-Kept :
      (req : AppendEntriesRequest) (n : Node S)
      → n.current_term ≤ req.term
      → Kept n (accept_entries req (accept_leader req.term req.leader_id n))
  accepted-Kept req n h =
      Kept-trans (accept_leader-Kept laws req.term req.leader_id n h)
        (accept_entries-Kept laws req _)

  pub handle_append_entries-Kept :
      (req : AppendEntriesRequest) (n : Node S) → Kept n (handle_append_entries req n).1
  unfolding handle_append_entries
  handle_append_entries-Kept req n =
      ground
        (arith, Kept-refl n, accept_leader-Kept laws req.term req.leader_id n, accepted-Kept req n)

  pub install_snapshot-Kept : (r : SnapshotRecvState) (n : Node S) → Kept n (install_snapshot r n).1
  unfolding install_snapshot
  install_snapshot-Kept r n =
      let saved = p.save_snapshot r.received r.last_included_index r.last_included_term n.storage in
      ground (
        arith,
        laws.snapshotted r.received r.last_included_index r.last_included_term n.storage,
        laws.cut_prefix r.last_included_index saved.0,
      )

  pub receive_chunk-Kept :
      (req : InstallSnapshotRequest) (n : Node S) → Kept n (receive_chunk req n).1
  unfolding receive_chunk
  receive_chunk-Kept req n = elim (Option-cases (current_transfer req n.recv_snapshot)) [
    | inl e ↦ rw (e, receive_chunk) (Kept-frame refl refl refl)
    | inr (r, e) ↦
        let r' : SnapshotRecvState = record r { received = r.received ++ req.chunk } in
        rw (e, receive_chunk)
          (ground (
            arith,
            Kept-frame {n = n} {m = record n { recv_snapshot = some r }} refl refl refl,
            Kept-frame {n = n} {m = record n { recv_snapshot = some r' }} refl refl refl,
            install_snapshot-Kept r' n,
          ))
  ]

  pub compact_log-Kept : (b : Bytes) (i t : ℕ) (n : Node S) → Kept n (compact_log b i t n).1
  unfolding compact_log
  compact_log-Kept b i t n =
      let saved = p.save_snapshot b i t n.storage in
      ground (arith, laws.snapshotted b i t n.storage, laws.cut_prefix i saved.0)

  pub on_vote_response-Kept :
      (resp : RequestVoteResponse) (e : Election) (n : Node S)
      → Kept n (on_vote_response resp e n).1
  unfolding on_vote_response
  on_vote_response-Kept resp e n =
      ground (arith, Kept-refl n, become_follower-Kept laws resp.term n, become_leader-Kept laws n)

  pub record_match-Kept : (peer : String) (m : ℕ) (n : Node S) → Kept n (record_match peer m n)
  unfolding record_match
  record_match-Kept peer m n = ground arith

  pub matched-Kept :
      (peer : String) (m : ℕ) (n : Node S) → Kept n (maybe_advance_commit (record_match peer m n))
  matched-Kept peer m n = Kept-trans (record_match-Kept peer m n) (maybe_advance_commit-Kept laws _)

  pub back_up_peer-Kept :
      (peer : String) (resp : AppendEntriesResponse) (n : Node S)
      → Kept n (back_up_peer peer resp n)
  unfolding back_up_peer
  back_up_peer-Kept peer resp n = Kept-frame refl refl refl

  pub on_append_response-Kept :
      (peer : String) (req : AppendEntriesRequest) (resp : AppendEntriesResponse) (n : Node S)
      → Kept n (on_append_response peer req resp n)
  unfolding on_append_response
  on_append_response-Kept peer req resp n = ground (
    arith,
    Kept-refl n,
    become_follower-Kept laws resp.term n,
    matched-Kept peer (req.prev_log_index + length req.entries) n,
    back_up_peer-Kept peer resp n,
  )

  pub on_snapshot_response-Kept :
      (peer : String) (req : InstallSnapshotRequest) (resp : InstallSnapshotResponse) (n : Node S)
      → Kept n (on_snapshot_response peer req resp n).1
  unfolding on_snapshot_response
  on_snapshot_response-Kept peer req resp n = ground (
    arith,
    Kept-refl n,
    become_follower-Kept laws resp.term n,
    record_match-Kept peer req.last_included_index n,
  )

  pub proposed-Kept :
      (e : LogEntry) (n : Node S) → Kept n (maybe_advance_commit (send_heartbeats (append_own e n)))
  unfolding append_own send_heartbeats
  proposed-Kept e n =
      Kept-trans
        (Kept-frame {n = n} {m = send_heartbeats (append_own e n)} refl refl
          (laws.appended (e ∷ []) n.storage))
        (maybe_advance_commit-Kept laws _)

  pub propose-Kept : (payload : Bytes) (n : Node S) → Kept n (propose payload n).1
  unfolding propose
  propose-Kept payload n = ground (arith, Kept-refl n, proposed-Kept (own_entry payload n) n)

  pub heartbeat_tick-Kept : (n : Node S) → Kept n (heartbeat_tick n)
  unfolding heartbeat_tick
  heartbeat_tick-Kept n = ground (arith, Kept-refl n)

  pub election_timeout-Kept :
      (n m : Node S) (e : Election) → election_timeout n ≡ some (e, m) → Kept n m
  unfolding election_timeout
  election_timeout-Kept n m e h = ground (arith, start_election-Kept laws n)

  pub received-Kept :
      (req : InstallSnapshotRequest) (n : Node S)
      → n.current_term ≤ req.term
      → Kept n (receive_chunk req (accept_leader req.term req.leader_id n)).1
  received-Kept req n h =
      Kept-trans (accept_leader-Kept laws req.term req.leader_id n h) (receive_chunk-Kept req _)

  pub handle_install_snapshot-Kept :
      (req : InstallSnapshotRequest) (n : Node S) → Kept n (handle_install_snapshot req n).1
  unfolding handle_install_snapshot
  handle_install_snapshot-Kept req n =
      ground
        (arith, Kept-refl n, accept_leader-Kept laws req.term req.leader_id n, received-Kept req n)

  -- A restart reads back the term and the vote that were stored.
  started :
      (n m : Node S) (t : ℕ) (v : String)
      → p.load_hard_state n.storage ≡ some (t, v)
      → start (new_node n.cfg n.storage) ≡ some m
      → (m.current_term ≡ t) × (m.voted_for ≡ v) × (m.storage ≡ n.storage)
  unfolding start new_node reset_election_timer
  started n m t v h e = ground arith

  pub restart-Kept :
      (n m : Node S) → HardSynced n → start (new_node n.cfg n.storage) ≡ some m → Kept n m
  restart-Kept n m h e =
      let (t, v, s) = started n m n.current_term n.voted_for h e in
      Kept-frame t v (ap p.load_hard_state s)
