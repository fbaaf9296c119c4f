-- ===== src/Raft/Append/Matching.antt =====
-- raft/node.go: the follower's log after an accepted AppendEntries request.
use distributed_key_value_st.Base.{
  ℕ, ◌+◌, ◌-◌, ◌≤◌, ◌<◌, ◌≡◌, sym, ap, ◌∙◌, true, some, ltb, ltb→lt, length, take, drop, get_elem?,
  length-take, get_elem?-append_right, get_elem?-append_left, get_elem?-drop, get_elem?-take, arith,
  Bool-cases, inl, inr,
}
use distributed_key_value_st.Raft.Types.{Node, LogEntry, PersistentState, AppendEntriesRequest}
use distributed_key_value_st.Raft.Log.{log_at}
use distributed_key_value_st.Raft.Log.Read.{log_at-add, log_at_below}
use distributed_key_value_st.Raft.Append.{accept_leader, handle_append_entries}
use distributed_key_value_st.Raft.Append.Merge.{splice-term}
use distributed_key_value_st.Raft.Append.Success.{
  overwritten, first_pos, fresh_entries, accepted, consistency_check-reaches, accept_leader-log,
  accept_entries-log, accept_entries-base,
}

module _ {S : Type 0} ⦃p : PersistentState S⦄ where
  -- An accepted request leaves the log as it was before the first position that the request may
  -- write, followed by the old rest overwritten by the sent entries that the snapshot does not
  -- cover. The node's log holds at least its sentinel.
  pub handle_append_entries-log :
      (req : AppendEntriesRequest) (n : Node S)
      → 0 < length n.log
      → (handle_append_entries req n).0.success ≡ true
      → (handle_append_entries req n).1.log ≡ overwritten req n.last_included_index n.log
  handle_append_entries-log req n pos ok =
      let (passed, out) = accepted req n ok in
      let n' = accept_leader req.term req.leader_id n in
      let (same_log, same_base) = accept_leader-log req.term req.leader_id n in
      let pos' : 0 < length n'.log = rw same_log pos in
      ap (λ (m : Node S). m.log) out
      ∙ (accept_entries-log req n' (consistency_check-reaches req n' pos' passed)
          ∙ rw (same_log, same_base))

  handle_append_entries-base :
      (req : AppendEntriesRequest) (n : Node S)
      → (handle_append_entries req n).0.success ≡ true
      → (handle_append_entries req n).1.last_included_index ≡ n.last_included_index
  handle_append_entries-base req n ok =
      let (passed, out) = accepted req n ok in
      ap (λ (m : Node S). m.last_included_index) out
      ∙ (accept_entries-base req _ ∙ (accept_leader-log req.term req.leader_id n).1)

  reaches :
      (req : AppendEntriesRequest) (n : Node S)
      → 0 < length n.log
      → (handle_append_entries req n).0.success ≡ true
      → first_pos req n.last_included_index ≤ length n.log
  reaches req n pos ok =
      let (passed, out) = accepted req n ok in
      let n' = accept_leader req.term req.leader_id n in
      let (same_log, same_base) = accept_leader-log req.term req.leader_id n in
      let pos' : 0 < length n'.log = rw same_log pos in
      let r = consistency_check-reaches req n' pos' passed in rw (same_log, same_base) at r

  -- The log at an offset from the base, after an accepted request.
  log_at_accepted :
      (req : AppendEntriesRequest) (n : Node S) (j : ℕ)
      → 0 < length n.log
      → (handle_append_entries req n).0.success ≡ true
      → log_at (handle_append_entries req n).1 (n.last_included_index + j)
        ≡ get_elem? (overwritten req n.last_included_index n.log) j
  log_at_accepted req n j pos ok =
      let n' = (handle_append_entries req n).1 in
      ap (λ i. log_at n' (i + j)) (sym (handle_append_entries-base req n ok))
      ∙ (log_at-add n' j ∙ ap (λ l. get_elem? l j) (handle_append_entries-log req n pos ok))

  -- After an accepted request the follower has, at the index of each sent entry above its
  -- snapshot, an entry of the same term. The node's log holds at least its sentinel.
  pub handle_append_entries_matches :
      (req : AppendEntriesRequest) (n : Node S) (i : ℕ) (e : LogEntry)
      → 0 < length n.log
      → (handle_append_entries req n).0.success ≡ true
      → get_elem? req.entries i ≡ some e
      → n.last_included_index < req.prev_log_index + 1 + i
      → (e' : LogEntry) × (log_at (handle_append_entries req n).1 (req.prev_log_index + 1 + i)
          ≡ some e')
        × (e'.term ≡ e.term)
  handle_append_entries_matches req n i e pos ok at above =
      let base = n.last_included_index in
      let k = first_pos req base in
      let skip = base - req.prev_log_index in
      let pre = take k n.log in
      let len : length pre ≡ k = omega (arith, length-take k n.log, reaches req n pos ok) in
      let sent : get_elem? (fresh_entries req base) (i - skip) ≡ some e =
        get_elem?-drop skip req.entries (i - skip)
        ∙ (ap (get_elem? req.entries) (omega arith) ∙ at) in
      let (e', found, t) = splice-term (drop k n.log) (fresh_entries req base) (i - skip) e sent in
      (
        e',
        ap (log_at (handle_append_entries req n).1) (omega arith)
            ∙ (log_at_accepted req n (length pre + (i - skip)) pos ok
                ∙ (get_elem?-append_right pre _ (i - skip) ∙ found)),
        t,
      )

  -- An accepted request changes no entry at or below its previous index, so that what the
  -- consistency check compared is still there. The node's log holds at least its sentinel.
  pub handle_append_entries_prefix :
      (req : AppendEntriesRequest) (n : Node S) (j : ℕ)
      → 0 < length n.log
      → (handle_append_entries req n).0.success ≡ true
      → j ≤ req.prev_log_index
      → log_at (handle_append_entries req n).1 j ≡ log_at n j
  handle_append_entries_prefix req n j pos ok low =
      elim (Bool-cases (ltb j n.last_included_index)) [
        | inl covered ↦
            log_at_below _ j
              (rw (handle_append_entries-base req n ok) (ltb→lt j n.last_included_index covered))
            ∙ sym (log_at_below n j (ltb→lt _ _ covered))
        | inr held ↦
            let k = first_pos req n.last_included_index in
            let i = j - n.last_included_index in
            let here : j ≡ n.last_included_index + i = ground arith in
            let within : i < k = ground arith in
            let len : length (take k n.log) ≡ k =
              omega (arith, length-take k n.log, reaches req n pos ok) in
            rw here (
              log_at_accepted req n i pos ok
              ∙ (get_elem?-append_left (take k n.log) _ i (omega arith)
                  ∙ (get_elem?-take k n.log i within ∙ sym (log_at-add n i))))
      ]
