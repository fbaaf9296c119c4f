-- ===== src/Raft/Append/Durable.antt =====
-- raft/node.go: HandleAppendEntries on a request whose first entry lies behind the log or conflicts
-- with it, against what the store holds.
use distributed_key_value_st.Base.{
  ℕ, ◌+◌, ◌-◌, ◌≤◌, ◌<◌, ◌≡◌, sym, ap, ◌∙◌, true, false, List, [], ◌∷◌, ◌++◌, ◌==◌, length, take,
  drop, length-append, length-take, append_assoc, append-nil, take-append-drop, take-append, subst,
  arith,
}
use distributed_key_value_st.Raft.Types.{Node, LogEntry, AppendEntriesRequest}
use distributed_key_value_st.Raft.Log.Read.{log_pos_past}
use distributed_key_value_st.Raft.Log.Indexed.{Indexed, keep_up_to-append}
use distributed_key_value_st.Raft.MemState.{MemState, mem_state, keep_up_to}
use distributed_key_value_st.Raft.Append.{
  has_term, accept_leader, merge_entry, merge_entries, handle_append_entries,
}
use distributed_key_value_st.Raft.Append.Success.{
  first_pos, accepted, accept_leader-log, consistency_check-reaches,
}
use distributed_key_value_st.Raft.Append.Persist.{
  InSync, accept_leader-entries, accepted_store, read_split,
}

-- The rest of the log is empty, or its first entry has another term than the first one sent.
abbrev pub StartsNew : List LogEntry → List LogEntry → Type 0
StartsNew xs [] = Unit {0}
StartsNew [] (e ∷ es) = Unit {0}
StartsNew (x ∷ xs) (e ∷ es) = (x.term == e.term) ≡ false

-- A node whose log is `pre`, whose store holds `kept`, and whose next index is `idx`.
abbrev At : Node MemState → List LogEntry → List LogEntry → ℕ → Type 0
At n pre kept idx =
    (n.log ≡ pre)
    × (n.storage.entries ≡ kept)
    × (idx ≡ n.last_included_index + length pre)
    × (0 < length pre)

merge_entry-At :
    (n : Node MemState) (pre kept : List LogEntry) (e : LogEntry) (idx : ℕ)
    → At n pre kept idx
    → At (merge_entry idx e n) (pre ++ e ∷ []) kept (idx + 1)
unfolding merge_entry
merge_entry-At n pre kept e idx (log_eq, stored, at, pos) =
    let here : idx ≡ n.last_included_index + length n.log =
      at ∙ ap (λ l. n.last_included_index + length l) (sym log_eq) in
    let pos' : 0 < length n.log = rw log_eq pos in
    rw here (
      rw (log_pos_past n (length n.log) (omega arith), merge_entry)
        (ground (arith, length-append pre (e ∷ []))))

merge_entries-At :
    (es : List LogEntry) (n : Node MemState) (pre kept : List LogEntry) (idx : ℕ)
    → At n pre kept idx
    → ((merge_entries idx es n).log ≡ pre ++ es) × ((merge_entries idx es n).storage.entries ≡ kept)
unfolding merge_entries
merge_entries-At [] n pre kept idx h = (h.0 ∙ sym (append-nil pre), h.1)
merge_entries-At (e ∷ es) n pre kept idx h =
    let (l, s) =
      merge_entries-At es (merge_entry idx e n) (pre ++ e ∷ []) kept (idx + 1)
        (merge_entry-At n pre kept e idx h) in
    (l ∙ append_assoc pre (e ∷ []) es, s)

merge_entry_truncates :
    (n : Node MemState) (pre suf : List LogEntry) (x e : LogEntry) (idx : ℕ)
    → n.log ≡ pre ++ x ∷ suf
    → idx ≡ n.last_included_index + length pre
    → 0 < length pre
    → (x.term == e.term) ≡ false
    → merge_entry idx e n ≡ record n {
      log = pre ++ e ∷ [];
      storage = record n.storage { entries = keep_up_to (idx - 1) n.storage.entries };
    }
unfolding merge_entry has_term
merge_entry_truncates n pre suf x e idx split at pos other =
    let (p, r) = read_split n pre suf x split in
    let front : take (length pre) n.log ≡ pre =
      ap (take (length pre)) split ∙ take-append pre (x ∷ suf) in
    rw at (rw (p, merge_entry) (ground (arith, r, front)))

-- Truncation cuts the store at the same place as the log.
store_truncates :
    (n : Node MemState) (s : LogEntry) (pre suf : List LogEntry)
    → n.log ≡ (s ∷ pre) ++ suf
    → InSync n
    → Indexed n.last_included_index n.log
    → keep_up_to (n.last_included_index + length pre) n.storage.entries ≡ pre
store_truncates n s pre suf split sync indexed =
    let i = subst (Indexed n.last_included_index) split indexed in
    ap (keep_up_to (n.last_included_index + length pre)) (sync ∙ ap (drop 1) split)
    ∙ keep_up_to-append (n.last_included_index + 1) _ pre suf i.1 (omega arith)

merge_entries_new :
    (e : LogEntry) (es : List LogEntry) (n : Node MemState) (pre suf : List LogEntry) (idx : ℕ)
    → StartsNew suf (e ∷ es)
    → n.log ≡ pre ++ suf
    → idx ≡ n.last_included_index + length pre
    → 0 < length pre
    → InSync n
    → Indexed n.last_included_index n.log
    → ((merge_entries idx (e ∷ es) n).log ≡ pre ++ e ∷ es)
      × ((merge_entries idx (e ∷ es) n).storage.entries ≡ drop 1 pre)
merge_entries_new e es n [] suf idx new split at pos sync indexed = elim pos [ ]
merge_entries_new e es n (s ∷ pre) [] idx new split at pos sync indexed =
    merge_entries-At (e ∷ es) n (s ∷ pre) pre idx
      (split ∙ append-nil (s ∷ pre), sync ∙ (ap (drop 1) split ∙ append-nil pre), at, pos)
merge_entries_new e es n (s ∷ pre) (x ∷ suf) idx new split at pos sync indexed =
    let cut = merge_entry_truncates n (s ∷ pre) suf x e idx split at pos new in
    let k : idx - 1 ≡ n.last_included_index + length pre = omega arith in
    let kept : (merge_entry idx e n).storage.entries ≡ pre =
      ap (λ (m : Node MemState). m.storage.entries) cut
      ∙ (ap (λ i. keep_up_to i n.storage.entries) k
          ∙ store_truncates n s pre (x ∷ suf) split sync indexed) in
    let (l, r) = merge_entries-At es (merge_entry idx e n) ((s ∷ pre) ++ e ∷ []) pre (idx + 1) (
      ap (λ (m : Node MemState). m.log) cut,
      kept,
      omega (
        arith,
        ap (λ (m : Node MemState). m.last_included_index) cut,
        length-append (s ∷ pre) (e ∷ []),
      ),
      omega arith,
    ) in
    unfold merge_entries in (l ∙ append_assoc (s ∷ pre) (e ∷ []) es, r)

-- What the store lacks after the merge is what is persisted next.
merge_then_persist :
    (es : List LogEntry) (n : Node MemState) (pre suf : List LogEntry) (idx : ℕ)
    → StartsNew suf es
    → n.log ≡ pre ++ suf
    → idx ≡ n.last_included_index + length pre
    → 0 < length pre
    → InSync n
    → Indexed n.last_included_index n.log
    → (merge_entries idx es n).storage.entries ++ es ≡ drop 1 (merge_entries idx es n).log
unfolding merge_entries
merge_then_persist [] n pre suf idx new split at pos sync indexed = append-nil _ ∙ sync
merge_then_persist (e ∷ es) n [] suf idx new split at pos sync indexed = elim pos [ ]
merge_then_persist (e ∷ es) n (s ∷ pre) suf idx new split at pos sync indexed =
    let (l, r) = merge_entries_new e es n (s ∷ pre) suf idx new split at pos sync indexed in
    ap (λ k. k ++ e ∷ es) r ∙ sym (ap (drop 1) l)

module _ (req : AppendEntriesRequest) (n : Node MemState) (pos : 0 < length n.log)
    (above : n.last_included_index ≤ req.prev_log_index)
    (new : StartsNew (drop (first_pos req n.last_included_index) n.log) req.entries)
    (sync : InSync n) (indexed : Indexed n.last_included_index n.log)
    (ok : (handle_append_entries req n).0.success ≡ true) where
  -- Over the store in memory, whose writes never fail, an accepted request whose first entry is
  -- missing from the log, or conflicts with it, keeps the store's entries equal to the log behind its
  -- sentinel. Before, they were equal, the log was not empty and had consecutive indexes, and the
  -- previous index is not below the snapshot.
  pub handle_append_entries-InSync : InSync (handle_append_entries req n).1
  handle_append_entries-InSync =
      let n' = accept_leader req.term req.leader_id n in
      let k = first_pos req n.last_included_index in
      let (same_log, same_base) = accept_leader-log req.term req.leader_id n in
      let pos' : 0 < length n'.log = rw same_log pos in
      let r = consistency_check-reaches req n' pos' (accepted req n ok).0 in
      let fits : k ≤ length n.log = rw (same_log, same_base) at r in
      let (stored, kept) = accepted_store req n ok in
      stored
      ∙ (merge_then_persist req.entries n' (take k n.log) (drop k n.log) _ new
            (same_log ∙ sym (take-append-drop k n.log))
            (omega (arith, same_base, length-take k n.log)) (omega (arith, length-take k n.log))
            (accept_leader-entries req.term req.leader_id n ∙ (sync ∙ ap (drop 1) (sym same_log)))
            (rw (same_log, same_base) indexed)
          ∙ ap (drop 1) (sym kept))
