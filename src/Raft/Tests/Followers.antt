-- ===== src/Raft/Tests/Followers.antt =====
-- The theorems about a follower at concrete requests.
use distributed_key_value_st.Base.{◌+◌, ◌≡◌, refl, true, false, [], ◌∷◌, some, arith}
use distributed_key_value_st.Raft.Types.{Node, AppendEntriesRequest, LogEntry}
use distributed_key_value_st.Raft.Log.{log_at, last_log_index}
use distributed_key_value_st.Raft.MemState.{MemState, mem_state}
use distributed_key_value_st.Raft.Election.{new_node, become_follower}
use distributed_key_value_st.Raft.Append.{
  accept_leader, consistency_check, has_term, merge_entry, merge_entries, handle_append_entries,
}
use distributed_key_value_st.Raft.Append.Success.{overwritten}
use distributed_key_value_st.Raft.Append.Matching.{
  handle_append_entries-log, handle_append_entries_matches, handle_append_entries_prefix,
}
use distributed_key_value_st.Raft.Append.Conflict.{Refused, handle_append_entries_refusal}
use distributed_key_value_st.Raft.Append.Persist.{InSync}
use distributed_key_value_st.Raft.Append.Resend.{resend_then_restart}
use distributed_key_value_st.Raft.Append.Durable.{handle_append_entries-InSync}
use distributed_key_value_st.Raft.Snapshot.{start}
use distributed_key_value_st.Raft.Tests.{entry, node, append_from}

-- The entries from index 2 on conflict with those of the follower.
abbrev overwrite : AppendEntriesRequest
overwrite = append_from 1 1 (entry 2 2 ∷ entry 3 2 ∷ [])

overwrite_accepted : (handle_append_entries overwrite node).0.success ≡ true
unfolding handle_append_entries accept_leader become_follower consistency_check log_at
    last_log_index has_term merge_entry merge_entries
overwrite_accepted = refl

handle_append_entries-log_example :
    (handle_append_entries overwrite node).1.log ≡ overwritten overwrite 0 node.log
handle_append_entries-log_example =
    handle_append_entries-log overwrite node (omega arith) overwrite_accepted

handle_append_entries_matches_example :
    (e' : LogEntry) × (log_at (handle_append_entries overwrite node).1 3 ≡ some e') × (e'.term ≡ 2)
handle_append_entries_matches_example =
    handle_append_entries_matches overwrite node 1 (entry 3 2) (omega arith) overwrite_accepted refl
      (omega arith)

handle_append_entries_prefix_example :
    log_at (handle_append_entries overwrite node).1 1 ≡ log_at node 1
handle_append_entries_prefix_example =
    handle_append_entries_prefix overwrite node 1 (omega arith) overwrite_accepted (omega arith)

-- The previous entry has term 1 at the follower, which holds term 1 from index 1 on.
abbrev conflicting : AppendEntriesRequest
conflicting = append_from 3 2 (entry 4 2 ∷ [])

conflicting_refused : (handle_append_entries conflicting node).0.success ≡ false
unfolding handle_append_entries accept_leader become_follower consistency_check log_at
    last_log_index
conflicting_refused = refl

handle_append_entries_refusal_example :
    let (resp, m) = handle_append_entries conflicting node in
    Refused conflicting m resp.conflict_index resp.conflict_term
    × (m.log ≡ node.log)
    × (m.commit_index ≡ node.commit_index)
    × (m.apply_ch ≡ node.apply_ch)
handle_append_entries_refusal_example =
    handle_append_entries_refusal conflicting node (omega arith) conflicting_refused

handle_append_entries-InSync_example : InSync (handle_append_entries overwrite node).1
handle_append_entries-InSync_example =
    handle_append_entries-InSync overwrite node (omega arith) (omega arith) refl refl
      (refl, (refl, (refl, (refl, tt)))) overwrite_accepted

-- The follower has both entries already.
abbrev resend : AppendEntriesRequest
resend = append_from 1 1 (entry 2 1 ∷ entry 3 1 ∷ [])

resend_accepted : (handle_append_entries resend node).0.success ≡ true
unfolding handle_append_entries accept_leader become_follower consistency_check log_at
    last_log_index has_term merge_entry merge_entries
resend_accepted = refl

resend_then_restart_example :
    (m : Node MemState) × (start (new_node node.cfg (handle_append_entries resend node).1.storage)
      ≡ some m)
    × (last_log_index m ≡ last_log_index node + 2)
resend_then_restart_example =
    resend_then_restart resend node (omega arith) (omega arith) (refl, (refl, tt)) resend_accepted
      refl refl
