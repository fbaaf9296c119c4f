-- ===== src/Raft/Append/Merge.antt =====
-- The loop of HandleAppendEntries over req.Entries, against a description on lists.
use distributed_key_value_st.Base.{
  ℕ, zero, suc, ◌+◌, ◌<◌, ◌≡◌, refl, sym, ap, ◌∙◌, true, false, List, [], ◌∷◌, ◌++◌, some, ◌==◌,
  if◌then◌else◌, length, take, get_elem?, length-append, get_elem?-append_right, take-append, arith,
  Bool-cases, append_assoc, append-nil, inl, inr,
}
use distributed_key_value_st.Raft.Types.{Node, LogEntry, PersistentState}
use distributed_key_value_st.Raft.Log.Read.{log_pos-add, log_pos_past, log_at-add}
use distributed_key_value_st.Raft.Append.{has_term, merge_entry, merge_entries}

-- The log after a common prefix, overwritten by the entries that a leader sends for it: an entry of
-- the same term is kept, and from the first entry of another term on the leader's replace it all.
pub splice : List LogEntry → List LogEntry → List LogEntry
splice xs [] = xs
splice [] (e ∷ es) = e ∷ es
splice (x ∷ xs) (e ∷ es) = if x.term == e.term then x ∷ splice xs es else e ∷ es

splice-nil : (es : List LogEntry) → splice [] es ≡ es
unfolding splice
splice-nil [] = refl
splice-nil (e ∷ es) = refl

-- Every entry that is sent ends up at its place, with its term.
pub splice-term :
    (xs es : List LogEntry) (i : ℕ) (e : LogEntry)
    → get_elem? es i ≡ some e
    → (e' : LogEntry) × (get_elem? (splice xs es) i ≡ some e') × (e'.term ≡ e.term)
unfolding splice
splice-term xs [] i e h = ground arith
splice-term [] (f ∷ es) i e h = (e, h, refl)
splice-term (x ∷ xs) (f ∷ es) zero e h = elim (Bool-cases (x.term == f.term)) [
  | inl same ↦ (x, rw same, ground arith)
  | inr other ↦ (f, rw other, ground arith)
]
splice-term (x ∷ xs) (f ∷ es) (suc i) e h = elim (Bool-cases (x.term == f.term)) [
  | inl same ↦ let (e', at, t) = splice-term xs es i e h in (e', rw same at, t)
  | inr other ↦ (e, rw other h, refl)
]

module _ {S : Type 0} ⦃p : PersistentState S⦄ where
  -- One round at the first index behind the log.
  merge_entry_past :
      (n : Node S) (e : LogEntry)
      → 0 < length n.log
      → merge_entry (n.last_included_index + length n.log) e n ≡ record n { log = n.log ++ e ∷ [] }
  unfolding merge_entry
  merge_entry_past n e pos =
      rw (log_pos_past n (length n.log) (omega arith), merge_entry) (ground arith)

  merge_entry_inside :
      (n : Node S) (k : ℕ) (x e : LogEntry)
      → 0 < k
      → k < length n.log
      → get_elem? n.log k ≡ some x
      → (merge_entry (n.last_included_index + k) e n).log
        ≡ (if x.term == e.term then n.log else take k n.log ++ e ∷ [])
  unfolding merge_entry has_term
  merge_entry_inside n k x e pos fits at =
      rw (log_pos-add n k fits, merge_entry) (ground (arith, log_at-add n k))

  merge_entry-base :
      (idx : ℕ) (e : LogEntry) (n : Node S)
      → (merge_entry idx e n).last_included_index ≡ n.last_included_index
  unfolding merge_entry
  merge_entry-base idx e n = ground arith

  -- One round, with the log split at the entry's index.
  abbrev Splits : Node S → List LogEntry → List LogEntry → ℕ → Type 0
  Splits n pre suf idx =
      (n.log ≡ pre ++ suf) × (idx ≡ n.last_included_index + length pre) × (0 < length pre)

  merge_entry-new :
      (n : Node S) (pre : List LogEntry) (e : LogEntry) (idx : ℕ)
      → Splits n pre [] idx
      → Splits (merge_entry idx e n) (pre ++ e ∷ []) [] (idx + 1)
  merge_entry-new n pre e idx (log_eq, at, pos) =
      let same : n.log ≡ pre = log_eq ∙ append-nil pre in
      let here : idx ≡ n.last_included_index + length n.log =
        at ∙ ap (λ l. n.last_included_index + length l) (sym same) in
      rw (here, merge_entry_past n e (rw same pos))
        (rw same (
          sym (append-nil (pre ++ e ∷ [])),
          omega (arith, length-append pre (e ∷ [])),
          omega (arith, length-append pre (e ∷ [])),
        ))

  merge_entry-met :
      (n : Node S) (pre suf : List LogEntry) (x e : LogEntry) (idx : ℕ)
      → Splits n pre (x ∷ suf) idx
      → (merge_entry idx e n).log ≡ (if x.term == e.term then n.log else pre ++ e ∷ [])
  merge_entry-met n pre suf x e idx (log_eq, at, pos) =
      let len : length n.log ≡ length pre + suc (length suf) =
        ap length log_eq ∙ length-append pre (x ∷ suf) in
      let found : get_elem? n.log (length pre) ≡ some x =
        ap (λ l. get_elem? l (length pre)) log_eq
        ∙ (ap (get_elem? (pre ++ x ∷ suf)) (omega arith)
            ∙ get_elem?-append_right pre (x ∷ suf) 0) in
      let front : take (length pre) n.log ≡ pre =
        ap (take (length pre)) log_eq ∙ take-append pre (x ∷ suf) in
      rw at (
        merge_entry_inside n (length pre) x e pos (omega arith) found
        ∙ ap (λ t. if x.term == e.term then n.log else t ++ e ∷ []) front)

  merge_entry-same :
      (n : Node S) (pre suf : List LogEntry) (x e : LogEntry) (idx : ℕ)
      → Splits n pre (x ∷ suf) idx
      → (x.term == e.term) ≡ true
      → Splits (merge_entry idx e n) (pre ++ x ∷ []) suf (idx + 1)
  merge_entry-same n pre suf x e idx h same = (
    merge_entry-met n pre suf x e idx h ∙ (rw same (h.0 ∙ sym (append_assoc pre (x ∷ []) suf))),
    omega (arith, merge_entry-base idx e n, length-append pre (x ∷ []), h.1),
    omega (arith, length-append pre (x ∷ [])),
  )

  merge_entry-conflict :
      (n : Node S) (pre suf : List LogEntry) (x e : LogEntry) (idx : ℕ)
      → Splits n pre (x ∷ suf) idx
      → (x.term == e.term) ≡ false
      → Splits (merge_entry idx e n) (pre ++ e ∷ []) [] (idx + 1)
  merge_entry-conflict n pre suf x e idx h other = (
    merge_entry-met n pre suf x e idx h ∙ (rw other (sym (append-nil (pre ++ e ∷ [])))),
    omega (arith, merge_entry-base idx e n, length-append pre (e ∷ []), h.1),
    omega (arith, length-append pre (e ∷ [])),
  )

  -- The loop computes `splice` on the part of the log from the first entry's index on.
  pub merge_entries-splice :
      (es : List LogEntry) (n : Node S) (pre suf : List LogEntry) (idx : ℕ)
      → Splits n pre suf idx
      → (merge_entries idx es n).log ≡ pre ++ splice suf es
  unfolding merge_entries splice
  merge_entries-splice [] n pre suf idx h = h.0
  merge_entries-splice (e ∷ es) n pre [] idx h =
      merge_entries-splice es (merge_entry idx e n) (pre ++ e ∷ []) [] (idx + 1)
        (merge_entry-new n pre e idx h)
      ∙ (rw (splice-nil es) (append_assoc pre (e ∷ []) es))
  merge_entries-splice (e ∷ es) n pre (x ∷ suf) idx h = elim (Bool-cases (x.term == e.term)) [
    | inl same ↦
        merge_entries-splice es (merge_entry idx e n) (pre ++ x ∷ []) suf (idx + 1)
          (merge_entry-same n pre suf x e idx h same)
        ∙ (rw same (append_assoc pre (x ∷ []) (splice suf es)))
    | inr other ↦
        merge_entries-splice es (merge_entry idx e n) (pre ++ e ∷ []) [] (idx + 1)
          (merge_entry-conflict n pre suf x e idx h other)
        ∙ (rw (other, splice-nil es) (append_assoc pre (e ∷ []) es))
  ]
