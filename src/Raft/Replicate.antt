-- ===== src/Raft/Replicate.antt =====
-- raft/node.go: replicateToPeer and sendSnapshotToPeer, the leader's side of log replication. A
-- call of the transport splits each into the part before it, which reads the node, and the part
-- after it, which runs on whatever the node has become meanwhile.
pub mod Livelock
use distributed_key_value_st.Base.{
  ℕ, zero, suc, ◌+◌, ◌-◌, Bool, true, false, List, [], ◌∷◌, ◌++◌, Option, none, some, ltb, leb,
  ◌==◌, if◌then◌else◌, ◌&&◌, String, take, drop, min, length, not, ◌*◌, ◌^◌, ◌||◌, Bytes,
}
use distributed_key_value_st.Raft.Types.{
  Node, Role, leader, LogEntry, PersistentState, Task, replicate, AppendEntriesRequest,
  AppendEntriesResponse, InstallSnapshotRequest, InstallSnapshotResponse, peer_get, peer_set,
}
use distributed_key_value_st.Raft.Log.{log_pos, log_at, last_log_index}
use distributed_key_value_st.Raft.Election.{become_follower}
use distributed_key_value_st.Raft.Commit.{maybe_advance_commit}
use distributed_key_value_st.Raft.Append.{has_term}

-- What replicateToPeer does before it calls the transport.
pub data Outgoing : Type 0 where
  idle : Outgoing
  send_snapshot : Outgoing
  send_entries : AppendEntriesRequest → Outgoing

abbrev pub snapshot_chunk_size : ℕ
snapshot_chunk_size = 2 ^ 20

-- sendSnapshotToPeer: the request for the chunk at `offset` of a transfer.
unfoldable pub snapshot_chunk : ℕ → ℕ → ℕ → Bytes → String → ℕ → InstallSnapshotRequest
snapshot_chunk term index snap_term blob id offset =
    let end_ = min (offset + snapshot_chunk_size) (length blob) in
    record {
      term = term;
      leader_id = id;
      last_included_index = index;
      last_included_term = snap_term;
      offset = offset;
      chunk = take (end_ - offset) (drop offset blob);
      done = leb (length blob) end_;
    }

module _ {S : Type 0} where
  -- The entries from `next_idx` to the end of the log.
  unfoldable pub entries_to_send : ℕ → Node S → List LogEntry
  entries_to_send next_idx n =
      if leb next_idx (last_log_index n)
      then elim (log_pos n next_idx) [ none ↦ [] | some pos ↦ drop pos n.log ]
      else []

  unfoldable pub prev_term : ℕ → Node S → ℕ
  prev_term prev n = if ltb 0 prev then elim (log_at n prev) [ none ↦ 0 | some e ↦ e.term ] else 0

  unfoldable pub append_request : ℕ → Node S → AppendEntriesRequest
  unfolding entries_to_send prev_term
  append_request next_idx n = record {
    term = n.current_term;
    leader_id = n.cfg.id;
    prev_log_index = next_idx - 1;
    prev_log_term = prev_term (next_idx - 1) n;
    entries = entries_to_send next_idx n;
    leader_commit = n.commit_index;
  }

  unfoldable pub replicate_to_peer : String → Node S → Outgoing
  replicate_to_peer peer n = elim n.role [
    | leader ↦
        let next_idx = peer_get n.next_index peer in
        if leb next_idx n.last_included_index
        then send_snapshot
        else send_entries (append_request next_idx n)
    | _ ↦ idle
  ]

  -- The loop for the last entry with the conflict term, over the `k` indexes above the snapshot.
  pub last_of_term : Node S → ℕ → ℕ → Option ℕ
  last_of_term n term zero = none
  last_of_term n term (suc k) =
      let lower = last_of_term n term k in
      if has_term n (n.last_included_index + suc k) term
      then some (n.last_included_index + suc k)
      else lower

  -- nextIndex after a rejection, from the conflict hint.
  unfoldable pub backed_up : AppendEntriesResponse → Node S → ℕ
  backed_up resp n =
      if ltb 0 resp.conflict_term
      then elim (last_of_term n resp.conflict_term (last_log_index n - n.last_included_index)) [
        | none ↦ resp.conflict_index
        | some i ↦ i + 1
      ]
      else resp.conflict_index

  unfoldable pub record_match : String → ℕ → Node S → Node S
  record_match peer new_match n =
      if ltb (peer_get n.match_index peer) new_match
      then record n {
        match_index = peer_set n.match_index peer new_match;
        next_index = peer_set n.next_index peer (new_match + 1);
      }
      else n

  unfoldable pub back_up_peer : String → AppendEntriesResponse → Node S → Node S
  back_up_peer peer resp n =
      let next = backed_up resp n in
      let next' =
        if ltb next (n.last_included_index + 1) then n.last_included_index + 1 else next in
      record n {
        next_index = peer_set n.next_index peer next';
        spawned = n.spawned ++ replicate peer ∷ [];
      }

module _ {S : Type 0} ⦃p : PersistentState S⦄ where
  -- replicateToPeer after the transport returned a response to `req`.
  unfoldable pub on_append_response :
      String → AppendEntriesRequest → AppendEntriesResponse → Node S → Node S
  on_append_response peer req resp n =
      if ltb n.current_term resp.term then become_follower resp.term n else elim n.role [
        | leader ↦
            if not (n.current_term == req.term)
            then n
            else if resp.success
            then maybe_advance_commit
                (record_match peer (req.prev_log_index + length req.entries) n)
            else back_up_peer peer resp n
        | _ ↦ n
      ]

  -- sendSnapshotToPeer up to its loop: the term, index and term of the snapshot, and its bytes.
  unfoldable pub begin_snapshot : Node S → Option (ℕ × ℕ × ℕ × Bytes)
  begin_snapshot n = elim n.role [
    | leader ↦ elim (p.load_snapshot n.storage) [
      | none ↦ none
      | some (blob, saved_index, saved_term) ↦
          if saved_index == n.last_included_index
          then some (n.current_term, n.last_included_index, n.last_included_term, blob)
          else none
    ]
    | _ ↦ none
  ]

  -- The loop of sendSnapshotToPeer after the response to one chunk; the flag says whether the
  -- transfer goes on at the next offset.
  unfoldable pub on_snapshot_response :
      String → InstallSnapshotRequest → InstallSnapshotResponse → Node S → Bool × Node S
  on_snapshot_response peer req resp n =
      if ltb n.current_term resp.term then (false, become_follower resp.term n) else elim n.role [
        | leader ↦
            if not (n.current_term == req.term) || not resp.success
            then (false, n)
            else if req.done
            then (false, record_match peer req.last_included_index n)
            else (true, n)
        | _ ↦ (false, n)
      ]
