-- ===== src/Raft/Append/Success.antt =====
-- HandleAppendEntries as a whole: the log that an accepted request leaves.
use distributed_key_value_st.Base.{
  ℕ, zero, suc, ◌+◌, ◌-◌, ◌≤◌, ◌<◌, ◌≡◌, refl, sym, ap, ◌∙◌, true, List, [], ◌∷◌, ◌++◌, none, ltb,
  length, take, drop, length-take, take-append-drop, arith, Bool-cases, inl, inr,
}
use distributed_key_value_st.Raft.Types.{Node, LogEntry, PersistentState, AppendEntriesRequest}
use distributed_key_value_st.Raft.Log.{last_log_index}
use distributed_key_value_st.Raft.Election.{become_follower}
use distributed_key_value_st.Raft.Commit.{advance_commit_to}
use distributed_key_value_st.Raft.Append.{
  merge_entry, merge_entries, accept_leader, consistency_check, persist_entries, follow_commit,
  accept_entries, handle_append_entries,
}
use distributed_key_value_st.Raft.Append.Merge.{splice, merge_entries-splice}

-- The position in a log with base `base` of the first entry that the request may write.
abbrev pub first_pos : AppendEntriesRequest → ℕ → ℕ
first_pos req base = req.prev_log_index - base + 1

-- The entries that the snapshot does not cover.
abbrev pub fresh_entries : AppendEntriesRequest → ℕ → List LogEntry
fresh_entries req base = drop (base - req.prev_log_index) req.entries

-- The log before the first position, then the rest overwritten by the entries.
abbrev pub overwritten : AppendEntriesRequest → ℕ → List LogEntry → List LogEntry
overwritten req base log =
    take (first_pos req base) log ++ splice (drop (first_pos req base) log) (fresh_entries req base)

module _ {S : Type 0} ⦃p : PersistentState S⦄ where
  pub accept_leader-log :
      (t : ℕ) (id : _) (n : Node S)
      → ((accept_leader t id n).log ≡ n.log)
        × ((accept_leader t id n).last_included_index ≡ n.last_included_index)
  unfolding accept_leader become_follower
  accept_leader-log t id n = ground arith

  pub persist_entries-log :
      (es : List LogEntry) (n : Node S)
      → ((persist_entries es n).log ≡ n.log)
        × ((persist_entries es n).last_included_index ≡ n.last_included_index)
  unfolding persist_entries
  persist_entries-log [] n = (refl, refl)
  persist_entries-log (e ∷ es) n = (refl, refl)

  pub follow_commit-log :
      (c : ℕ) (n : Node S)
      → ((follow_commit c n).log ≡ n.log)
        × ((follow_commit c n).last_included_index ≡ n.last_included_index)
  unfolding follow_commit advance_commit_to
  follow_commit-log c n = ground arith

  pub merge_entries-base :
      (es : List LogEntry) (idx : ℕ) (n : Node S)
      → (merge_entries idx es n).last_included_index ≡ n.last_included_index
  unfolding merge_entries merge_entry
  merge_entries-base [] idx n = refl
  merge_entries-base (e ∷ es) idx n =
      ground (arith, merge_entries-base es (idx + 1) (merge_entry idx e n))

  -- Entries that the snapshot covers are passed over.
  merge_entries-skip :
      (es : List LogEntry) (k idx : ℕ) (n : Node S)
      → idx + k ≡ n.last_included_index + 1
      → merge_entries idx es n ≡ merge_entries (n.last_included_index + 1) (drop k es) n
  unfolding merge_entries merge_entry
  merge_entries-skip es zero idx n h = ap (λ i. merge_entries i es n) (omega arith)
  merge_entries-skip [] (suc k) idx n h = refl
  merge_entries-skip (e ∷ es) (suc k) idx n h = ground (arith, merge_entries-skip es k (idx + 1) n)

  merge_entries-fresh :
      (req : AppendEntriesRequest) (n : Node S)
      → merge_entries (req.prev_log_index + 1) req.entries n
        ≡ merge_entries
            (n.last_included_index + first_pos req n.last_included_index)
            (fresh_entries req n.last_included_index)
            n
  merge_entries-fresh req n = elim (Bool-cases (ltb req.prev_log_index n.last_included_index)) [
    | inl below ↦
        merge_entries-skip req.entries (n.last_included_index - req.prev_log_index)
          (req.prev_log_index + 1) n (ground arith)
        ∙ ap (λ i. merge_entries i (fresh_entries req n.last_included_index) n) (ground arith)
    | inr above ↦
        let none_covered : n.last_included_index - req.prev_log_index ≡ 0 = ground arith in
        rw none_covered (ap (λ i. merge_entries i req.entries n) (ground arith))
  ]

  pub accept_entries-base :
      (req : AppendEntriesRequest) (n : Node S)
      → (accept_entries req n).last_included_index ≡ n.last_included_index
  unfolding accept_entries
  accept_entries-base req n =
      (follow_commit-log _ _).1
      ∙ ((persist_entries-log req.entries _).1 ∙ merge_entries-base req.entries _ n)

  pub accept_entries-log :
      (req : AppendEntriesRequest) (n : Node S)
      → first_pos req n.last_included_index ≤ length n.log
      → (accept_entries req n).log ≡ overwritten req n.last_included_index n.log
  unfolding accept_entries
  accept_entries-log req n fits =
      let k = first_pos req n.last_included_index in
      let len : length (take k n.log) ≡ k = omega (arith, length-take k n.log) in
      (follow_commit-log _ _).0
      ∙ ((persist_entries-log req.entries _).0
          ∙ (ap (λ (m : Node S). m.log) (merge_entries-fresh req n)
              ∙ merge_entries-splice (fresh_entries req n.last_included_index) n (take k n.log)
                  (drop k n.log) _ (sym (take-append-drop k n.log), omega arith, omega arith)))

  -- The consistency check passes only where the log reaches the previous index.
  pub consistency_check-reaches :
      (req : AppendEntriesRequest) (n : Node S)
      → 0 < length n.log
      → consistency_check req n ≡ none
      → first_pos req n.last_included_index ≤ length n.log
  unfolding consistency_check last_log_index
  consistency_check-reaches req n pos h = ground arith

  -- The node after a request that was accepted.
  pub accepted :
      (req : AppendEntriesRequest) (n : Node S)
      → (handle_append_entries req n).0.success ≡ true
      → (consistency_check req (accept_leader req.term req.leader_id n) ≡ none)
        × ((handle_append_entries req n).1
            ≡ accept_entries req (accept_leader req.term req.leader_id n))
  unfolding handle_append_entries
  accepted req n h = ground arith
