-- ===== src/Raft/Commit/Applied.antt =====
-- What advanceCommitTo sends to the application.
use distributed_key_value_st.Base.{
  ℕ, zero, suc, ◌+◌, ◌-◌, ◌≤◌, ◌<◌, ◌≡◌, refl, ap, ◌∙◌, List, ◌∷◌, ◌++◌, map, some, length, take,
  drop, drop-cons, get_elem?-some, arith,
}
use distributed_key_value_st.Raft.Types.{Node, LogEntry, command}
use distributed_key_value_st.Raft.Log.{log_at}
use distributed_key_value_st.Raft.Log.Read.{log_at-add}
use distributed_key_value_st.Raft.Commit.{entries_from, advance_commit_to}

module _ {S : Type 0} where
  -- The loop collects a segment of the log.
  pub entries_from-segment :
      (n : Node S) (m k i : ℕ)
      → i ≡ n.last_included_index + k
      → k + m ≤ length n.log
      → entries_from n i m ≡ take m (drop k n.log)
  unfolding entries_from
  entries_from-segment n zero k i at fits = refl
  entries_from-segment n (suc m) k i at fits =
      let (e, here) = get_elem?-some n.log k (omega arith) in
      let read : log_at n i ≡ some e = ap (log_at n) at ∙ (log_at-add n k ∙ here) in
      let rest = entries_from-segment n m (k + 1) (i + 1) (omega arith) (omega arith) in
      rw (read, entries_from, drop-cons k n.log e here) (ap (λ t. e ∷ t) rest)

  -- The entries of the log above index `lo` up to index `hi`.
  abbrev pub segment : Node S → ℕ → ℕ → List LogEntry
  segment n lo hi = take (hi - lo) (drop (lo + 1 - n.last_included_index) n.log)

  -- Advancing the commit index sends exactly the log's entries above the old one up to the new one,
  -- each once and in the log's order, behind what was sent before, when the new index is in the log
  -- and the old one is not below the snapshot.
  pub advance_commit_to_sends :
      (n : Node S) (c : ℕ)
      → n.last_included_index ≤ n.commit_index
      → n.commit_index ≤ c
      → c < n.last_included_index + length n.log
      → (advance_commit_to c n).apply_ch ≡ n.apply_ch ++ map command (segment n n.commit_index c)
  unfolding advance_commit_to
  advance_commit_to_sends n c base up held =
      ap (λ es. n.apply_ch ++ map command es)
        (entries_from-segment n (c - n.commit_index) (n.commit_index + 1 - n.last_included_index)
          (n.commit_index + 1) (omega arith) (omega arith))
