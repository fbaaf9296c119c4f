-- ===== src/Raft/Append/Resend.antt =====
-- raft/node.go: HandleAppendEntries on a request whose entries the follower has already.
use distributed_key_value_st.Base.{
  ◌+◌, ◌≤◌, ◌<◌, ◌≡◌, sym, ap, ◌∙◌, true, ◌++◌, some, length, take, drop, length-append,
  length-take, length-drop, take-append-drop, arith,
}
use distributed_key_value_st.Raft.Types.{Node, AppendEntriesRequest}
use distributed_key_value_st.Raft.Log.{last_log_index}
use distributed_key_value_st.Raft.MemState.{MemState, mem_state}
use distributed_key_value_st.Raft.Election.{new_node}
use distributed_key_value_st.Raft.Snapshot.{start}
use distributed_key_value_st.Raft.Snapshot.Recover.{start_recovers}
use distributed_key_value_st.Raft.Append.{accept_leader, merge_entries, handle_append_entries}
use distributed_key_value_st.Raft.Append.Success.{
  first_pos, accepted, accept_leader-log, consistency_check-reaches,
}
use distributed_key_value_st.Raft.Append.Persist.{
  InSync, Present, handle_append_entries-snapshot_base, accept_leader-entries, accepted_store,
  merge_entries-Present,
}

module _ (req : AppendEntriesRequest) (n : Node MemState) (pos : 0 < length n.log)
    (above : n.last_included_index ≤ req.prev_log_index)
    (present : Present (drop (first_pos req n.last_included_index) n.log) req.entries)
    (ok : (handle_append_entries req n).0.success ≡ true) where
  abbrev followed : Node MemState
  followed = accept_leader req.term req.leader_id n

  nothing_merged : merge_entries (req.prev_log_index + 1) req.entries followed ≡ followed
  nothing_merged =
      let k = first_pos req n.last_included_index in
      let (same_log, same_base) = accept_leader-log req.term req.leader_id n in
      let pos' : 0 < length followed.log = rw same_log pos in
      let r = consistency_check-reaches req followed pos' (accepted req n ok).0 in
      let fits : k ≤ length n.log = rw (same_log, same_base) at r in
      merge_entries-Present req.entries followed (take k n.log) (drop k n.log) _
        (same_log ∙ sym (take-append-drop k n.log)) (omega (arith, same_base, length-take k n.log))
        (omega (arith, length-take k n.log)) present

  -- A request whose entries the follower has already leaves its log as it was and appends all of
  -- the entries to the store once more.
  pub resend_duplicates :
      ((handle_append_entries req n).1.log ≡ n.log)
      × ((handle_append_entries req n).1.storage.entries ≡ n.storage.entries ++ req.entries)
  resend_duplicates =
      let (stored, kept) = accepted_store req n ok in
      (
        kept
            ∙ (ap (λ (m : Node MemState). m.log) nothing_merged
                ∙ (accept_leader-log req.term req.leader_id n).0),
        stored
            ∙ ap (λ l. l ++ req.entries)
                (ap (λ (m : Node MemState). m.storage.entries) nothing_merged
                  ∙ accept_leader-entries req.term req.leader_id n),
      )

  -- Over the store in memory, after an accepted request whose entries the follower has already, a
  -- restart reads a log whose last index is too large by the number of those entries. Before, the
  -- store's entries were the log behind its sentinel, the store's snapshot index was the node's, the
  -- log was not empty, and the request's previous index is not below the snapshot.
  pub resend_then_restart :
      InSync n
      → n.storage.last_included_index ≡ n.last_included_index
      → (m : Node MemState) × (start (new_node n.cfg (handle_append_entries req n).1.storage)
          ≡ some m)
        × (last_log_index m ≡ last_log_index n + length req.entries)
  unfolding last_log_index
  resend_then_restart sync base =
      let (_, stored) = resend_duplicates in
      let store = (handle_append_entries req n).1.storage in
      let (m, started, r) = start_recovers n.cfg store in
      (
        m,
        started,
        omega (
          arith,
          r.base,
          ap length r.log,
          ap length (stored ∙ ap (λ l. l ++ req.entries) sync),
          length-append (drop 1 n.log) req.entries,
          length-drop 1 n.log,
          handle_append_entries-snapshot_base req n ok,
          base,
          pos,
        ),
      )
