-- ===== src/Raft/Append/Follows.antt =====
-- raft/node.go: whom a node follows after HandleAppendEntries.
use distributed_key_value_st.Raft.Election.{become_follower}
use distributed_key_value_st.Raft.Commit.{advance_commit_to}
use distributed_key_value_st.Raft.Append.{
  consistency_check, accept_entries, merge_entry, persist_entries, follow_commit, accept_leader,
  merge_entries, handle_append_entries,
}
use distributed_key_value_st.Base.{
  inr, inl, Option-cases, ◌+◌, [], false, ◌∷◌, ltb, ◌≤◌, arith, ℕ, List, ◌≡◌, String,
}
use distributed_key_value_st.Raft.Types.{
  follower, LogEntry, AppendEntriesRequest, Node, PersistentState,
}

module _ {S : Type 0} where
  -- The node is a follower and knows `id` as the leader.
  abbrev pub Follows : String → Node S → Type 0
  Follows id n = (n.role ≡ follower) × (n.leader_id ≡ id)

module _ {S : Type 0} ⦃p : PersistentState S⦄ where
  accept_leader-Follows : (t : ℕ) (id : String) (n : Node S) → Follows id (accept_leader t id n)
  unfolding accept_leader become_follower
  accept_leader-Follows t id n = ground arith

  merge_entry-Follows :
      (idx : ℕ) (id : String) (e : LogEntry) (n : Node S)
      → Follows id n
      → Follows id (merge_entry idx e n)
  unfolding merge_entry
  merge_entry-Follows idx id e n (r, l) = ground (arith, r, l)

  merge_entries-Follows :
      (es : List LogEntry) (idx : ℕ) (id : String) (n : Node S)
      → Follows id n
      → Follows id (merge_entries idx es n)
  unfolding merge_entries
  merge_entries-Follows [] idx id n f = f
  merge_entries-Follows (e ∷ es) idx id n f =
      merge_entries-Follows es (idx + 1) id (merge_entry idx e n) (merge_entry-Follows idx id e n f)

  persist_entries-Follows :
      (es : List LogEntry) (id : String) (n : Node S)
      → Follows id n
      → Follows id (persist_entries es n)
  unfolding persist_entries
  persist_entries-Follows [] id n f = f
  persist_entries-Follows (e ∷ es) id n f = f

  follow_commit-Follows :
      (c : ℕ) (id : String) (n : Node S) → Follows id n → Follows id (follow_commit c n)
  unfolding follow_commit advance_commit_to
  follow_commit-Follows c id n (r, l) = ground (arith, r, l)

  accept_entries-Follows :
      (req : AppendEntriesRequest) (id : String) (n : Node S)
      → Follows id n
      → Follows id (accept_entries req n)
  unfolding accept_entries
  accept_entries-Follows req id n f =
      follow_commit-Follows req.leader_commit id _
        (persist_entries-Follows req.entries id _ (merge_entries-Follows req.entries _ id n f))

  -- A node that hears from a leader whose term is not below its own follows that one, whether it takes
  -- the entries or not.
  pub handle_append_entries-Follows :
      (req : AppendEntriesRequest) (n : Node S)
      → n.current_term ≤ req.term
      → Follows req.leader_id (handle_append_entries req n).1
  unfolding handle_append_entries
  handle_append_entries-Follows req n current =
      let n' = accept_leader req.term req.leader_id n in
      let f = accept_leader-Follows req.term req.leader_id n in
      let timely : ltb req.term n.current_term ≡ false = ground (arith, current) in
      elim (Option-cases (consistency_check req n')) [
        | inl passed ↦
            rw (timely, passed, handle_append_entries)
              (accept_entries-Follows req req.leader_id n' f)
        | inr (conflict, failed) ↦ rw (timely, failed, handle_append_entries) f
      ]
