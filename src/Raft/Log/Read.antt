-- ===== src/Raft/Log/Read.antt =====
-- Reads of the log at an offset from the last included index, and where they succeed.
use distributed_key_value_st.Base.{
  ℕ, ◌+◌, ◌-◌, ◌≤◌, ◌<◌, ◌≡◌, sym, ◌∙◌, none, some, ltb, length, get_elem?, get_elem?-none,
  get_elem?-some, arith, Bool-cases, inl, inr, ap,
}
use distributed_key_value_st.Raft.Types.{Node, LogEntry}
use distributed_key_value_st.Raft.Log.{log_pos, log_at}

module _ {S : Type 0} where
  pub log_pos-add :
      (n : Node S) (k : ℕ) → k < length n.log → log_pos n (n.last_included_index + k) ≡ some k
  unfolding log_pos
  log_pos-add n k h =
      let d : n.last_included_index + k - n.last_included_index ≡ k = omega arith in
      rw d (ground arith)

  pub log_pos_past :
      (n : Node S) (k : ℕ) → length n.log ≤ k → log_pos n (n.last_included_index + k) ≡ none
  unfolding log_pos
  log_pos_past n k h = ground arith

  pub log_pos_below : (n : Node S) (i : ℕ) → i < n.last_included_index → log_pos n i ≡ none
  unfolding log_pos
  log_pos_below n i h = ground arith

  pub log_at-add : (n : Node S) (k : ℕ) → log_at n (n.last_included_index + k) ≡ get_elem? n.log k
  unfolding log_at
  log_at-add n k = elim (Bool-cases (ltb k (length n.log))) [
    | inl h ↦ rw (log_pos-add n k (ground arith), log_at)
    | inr h ↦
        rw (log_pos_past n k (ground arith), log_at) (sym (get_elem?-none n.log k (ground arith)))
  ]

  pub log_at_below : (n : Node S) (i : ℕ) → i < n.last_included_index → log_at n i ≡ none
  unfolding log_at
  log_at_below n i h = rw (log_pos_below n i h, log_at)

  pub log_at_past :
      (n : Node S) (i : ℕ) → n.last_included_index + length n.log ≤ i → log_at n i ≡ none
  log_at_past n i h =
      let e : i ≡ n.last_included_index + (i - n.last_included_index) = omega arith in
      rw e (rw log_at-add (get_elem?-none n.log (i - n.last_included_index) (omega arith)))

  -- Every index from the snapshot's to the last one can be read.
  pub log_at_total :
      (n : Node S) (i : ℕ)
      → n.last_included_index ≤ i
      → i < n.last_included_index + length n.log
      → (e : LogEntry) × (log_at n i ≡ some e)
  log_at_total n i low high =
      let k = i - n.last_included_index in
      let (e, at) = get_elem?-some n.log k (omega arith) in
      let here : i ≡ n.last_included_index + k = omega arith in
      (e, ap (log_at n) here ∙ (log_at-add n k ∙ at))
