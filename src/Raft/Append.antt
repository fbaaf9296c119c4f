-- ===== src/Raft/Append.antt =====
-- raft/node.go: HandleAppendEntries, the follower's side of log replication.
pub mod Follows
pub mod Conflict
pub mod Merge
pub mod Success
pub mod Matching
pub mod Persist
pub mod Resend
pub mod Durable
use distributed_key_value_st.Base.{
  ℕ, zero, suc, ◌+◌, ◌-◌, Bool, true, false, List, [], ◌∷◌, ◌++◌, Option, none, some, ltb, leb,
  ◌==◌, if◌then◌else◌, ◌&&◌, String, take, min,
}
use distributed_key_value_st.Raft.Types.{
  Node, follower, LogEntry, PersistentState, AppendEntriesRequest, AppendEntriesResponse,
}
use distributed_key_value_st.Raft.Log.{log_pos, log_at, last_log_index}
use distributed_key_value_st.Raft.Election.{become_follower, reset_election_timer}
use distributed_key_value_st.Raft.Commit.{advance_commit_to}

module _ {S : Type 0} where
  unfoldable pub has_term : Node S → ℕ → ℕ → Bool
  has_term n idx term = elim (log_at n idx) [ none ↦ false | some e ↦ e.term == term ]

  -- The loop that moves resp.ConflictIndex down to the first index of the conflicting term.
  unfoldable pub first_of_term : Node S → ℕ → ℕ → ℕ
  first_of_term n term zero = zero
  first_of_term n term (suc c) =
      let lower = first_of_term n term c in
      if ltb (n.last_included_index + 1) (suc c) && has_term n c term then lower else suc c

  -- The log consistency check: the conflict index and the conflict term of a rejection.
  unfoldable pub consistency_check : AppendEntriesRequest → Node S → Option (ℕ × ℕ)
  consistency_check req n =
      if req.prev_log_index == 0
      then none
      else if ltb (last_log_index n) req.prev_log_index
      then some (last_log_index n + 1, 0)
      else elim (log_at n req.prev_log_index) [
        | none ↦ none
        | some e ↦
            if e.term == req.prev_log_term
            then none
            else some (first_of_term n e.term req.prev_log_index, e.term)
      ]

  unfoldable pub follow_commit : ℕ → Node S → Node S
  follow_commit leader_commit n =
      if ltb n.commit_index leader_commit
      then advance_commit_to (min leader_commit (last_log_index n)) n
      else n

module _ {S : Type 0} ⦃p : PersistentState S⦄ where
  -- What HandleAppendEntries and HandleInstallSnapshot do first with a sender of a current term.
  unfoldable pub accept_leader : ℕ → String → Node S → Node S
  unfolding reset_election_timer
  accept_leader term id n =
      let n' : Node S =
        if ltb n.current_term term
        then become_follower term n
        else reset_election_timer (record n { role = follower }) in
      record n' { leader_id = id }

  -- One round of the loop over req.Entries, for the entry at index `idx`.
  unfoldable pub merge_entry : ℕ → LogEntry → Node S → Node S
  merge_entry idx entry n = if leb idx n.last_included_index then n else elim (log_pos n idx) [
    | none ↦ record n { log = n.log ++ entry ∷ [] }
    | some pos ↦ if has_term n idx entry.term then n else record n {
      log = take pos n.log ++ entry ∷ [];
      storage = (p.truncate_suffix (idx - 1) n.storage).0;
    }
  ]

  unfoldable pub merge_entries : ℕ → List LogEntry → Node S → Node S
  merge_entries idx [] n = n
  merge_entries idx (entry ∷ rest) n = merge_entries (idx + 1) rest (merge_entry idx entry n)

  unfoldable pub persist_entries : List LogEntry → Node S → Node S
  persist_entries [] n = n
  persist_entries (e ∷ es) n = record n { storage = (p.append_entries (e ∷ es) n.storage).0 }

  -- HandleAppendEntries after the consistency check has passed.
  unfoldable pub accept_entries : AppendEntriesRequest → Node S → Node S
  accept_entries req n =
      follow_commit req.leader_commit
        (persist_entries req.entries (merge_entries (req.prev_log_index + 1) req.entries n))

  unfoldable pub handle_append_entries :
      AppendEntriesRequest → Node S → AppendEntriesResponse × Node S
  handle_append_entries req n =
      if ltb req.term n.current_term
      then (
        record {
          term = n.current_term;
          success = false;
          match_index = 0;
          conflict_term = 0;
          conflict_index = 0;
        },
        n,
      )
      else (let n' = accept_leader req.term req.leader_id n in
          elim (consistency_check req n') [
            | some (index, term) ↦ (
              record {
                term = n'.current_term;
                success = false;
                match_index = 0;
                conflict_term = term;
                conflict_index = index;
              },
              n',
            )
            | none ↦
                let n'' = accept_entries req n' in
                (
                  record {
                    term = n'.current_term;
                    success = true;
                    match_index = last_log_index n'';
                    conflict_term = 0;
                    conflict_index = 0;
                  },
                  n'',
                )
          ])
