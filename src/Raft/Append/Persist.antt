-- ===== src/Raft/Append/Persist.antt =====
-- What HandleAppendEntries writes to the store, here the one in memory, against the log it keeps.
use distributed_key_value_st.Base.{
  ℕ, ◌+◌, ◌<◌, ◌≡◌, refl, sym, ap, ◌∙◌, true, List, [], ◌∷◌, ◌++◌, some, length, drop, get_elem?,
  length-append, String, get_elem?-append_right, arith, append-nil, append_assoc,
}
use distributed_key_value_st.Raft.Types.{Node, LogEntry, AppendEntriesRequest}
use distributed_key_value_st.Raft.Log.{log_pos, log_at}
use distributed_key_value_st.Raft.Log.Read.{log_pos-add, log_at-add}
use distributed_key_value_st.Raft.MemState.{MemState, mem_state}
use distributed_key_value_st.Raft.Election.{become_follower}
use distributed_key_value_st.Raft.Commit.{advance_commit_to}
use distributed_key_value_st.Raft.Append.{
  has_term, merge_entry, merge_entries, accept_leader, persist_entries, follow_commit,
  accept_entries, handle_append_entries,
}
use distributed_key_value_st.Raft.Append.Success.{accepted, persist_entries-log, follow_commit-log}

-- The store holds exactly the log behind its sentinel.
abbrev pub InSync : Node MemState → Type 0
InSync n = n.storage.entries ≡ drop 1 n.log

-- Each sent entry is met by one of the same term.
abbrev pub Present : List LogEntry → List LogEntry → Type 0
Present xs [] = Unit {0}
Present [] (e ∷ es) = ⊥
Present (x ∷ xs) (e ∷ es) = (x.term ≡ e.term) × Present xs es

pub accept_leader-entries :
    (t : ℕ) (id : String) (n : Node MemState)
    → (accept_leader t id n).storage.entries ≡ n.storage.entries
unfolding accept_leader become_follower
accept_leader-entries t id n = ground arith

pub follow_commit-entries :
    (c : ℕ) (n : Node MemState) → (follow_commit c n).storage.entries ≡ n.storage.entries
unfolding follow_commit advance_commit_to
follow_commit-entries c n = ground arith

pub persist_entries-entries :
    (es : List LogEntry) (n : Node MemState)
    → (persist_entries es n).storage.entries ≡ n.storage.entries ++ es
unfolding persist_entries
persist_entries-entries [] n = sym (append-nil _)
persist_entries-entries (e ∷ es) n = refl

pub read_split :
    (n : Node MemState) (pre suf : List LogEntry) (x : LogEntry)
    → n.log ≡ pre ++ x ∷ suf
    → (log_pos n (n.last_included_index + length pre) ≡ some (length pre))
      × (log_at n (n.last_included_index + length pre) ≡ some x)
read_split n pre suf x split = (
  log_pos-add n (length pre) (omega (arith, ap length split, length-append pre (x ∷ suf))),
  log_at-add n (length pre)
      ∙ (ap (λ l. get_elem? l (length pre)) split
          ∙ (ap (get_elem? (pre ++ x ∷ suf)) (omega arith)
              ∙ get_elem?-append_right pre (x ∷ suf) 0)),
)

merge_entry_present :
    (n : Node MemState) (pre suf : List LogEntry) (x e : LogEntry) (idx : ℕ)
    → n.log ≡ pre ++ x ∷ suf
    → idx ≡ n.last_included_index + length pre
    → 0 < length pre
    → x.term ≡ e.term
    → merge_entry idx e n ≡ n
unfolding merge_entry has_term
merge_entry_present n pre suf x e idx split at pos same =
    let (p, r) = read_split n pre suf x split in rw at (rw (p, merge_entry) (ground (arith, r)))

-- Entries that are there already change nothing.
pub merge_entries-Present :
    (es : List LogEntry) (n : Node MemState) (pre suf : List LogEntry) (idx : ℕ)
    → n.log ≡ pre ++ suf
    → idx ≡ n.last_included_index + length pre
    → 0 < length pre
    → Present suf es
    → merge_entries idx es n ≡ n
unfolding merge_entries
merge_entries-Present [] n pre suf idx split at pos h = refl
merge_entries-Present (e ∷ es) n pre [] idx split at pos h = absurd h
merge_entries-Present (e ∷ es) n pre (x ∷ suf) idx split at pos h =
    ap (merge_entries (idx + 1) es) (merge_entry_present n pre suf x e idx split at pos h.0)
    ∙ merge_entries-Present es n (pre ++ x ∷ []) suf (idx + 1)
        (split ∙ sym (append_assoc pre (x ∷ []) suf)) (omega (arith, length-append pre (x ∷ [])))
        (omega (arith, length-append pre (x ∷ []))) h.1

-- The node that an accepted request is merged into, and what it has in common with the one before.
pub accepted_store :
    (req : AppendEntriesRequest) (n : Node MemState)
    → (handle_append_entries req n).0.success ≡ true
    → let m =
        merge_entries
          (req.prev_log_index + 1)
          req.entries
          (accept_leader req.term req.leader_id n) in
      ((handle_append_entries req n).1.storage.entries ≡ m.storage.entries ++ req.entries)
      × ((handle_append_entries req n).1.log ≡ m.log)
unfolding accept_entries
accepted_store req n ok =
    let (_, out) = accepted req n ok in
    (
      ap (λ (k : Node MemState). k.storage.entries) out
          ∙ (follow_commit-entries req.leader_commit _ ∙ persist_entries-entries req.entries _),
      ap (λ (k : Node MemState). k.log) out
          ∙ ((follow_commit-log req.leader_commit _).0 ∙ (persist_entries-log req.entries _).0),
    )

abbrev snapshot_base : Node MemState → ℕ
snapshot_base n = n.storage.last_included_index

merge_entries-snapshot_base :
    (es : List LogEntry) (idx : ℕ) (n : Node MemState)
    → snapshot_base (merge_entries idx es n) ≡ snapshot_base n
unfolding merge_entries merge_entry
merge_entries-snapshot_base [] idx n = refl
merge_entries-snapshot_base (e ∷ es) idx n =
    ground (arith, merge_entries-snapshot_base es (idx + 1) (merge_entry idx e n))

accept_leader-snapshot_base :
    (t : ℕ) (id : String) (n : Node MemState)
    → snapshot_base (accept_leader t id n) ≡ snapshot_base n
unfolding accept_leader become_follower
accept_leader-snapshot_base t id n = ground arith

persist_entries-snapshot_base :
    (es : List LogEntry) (n : Node MemState)
    → snapshot_base (persist_entries es n) ≡ snapshot_base n
unfolding persist_entries
persist_entries-snapshot_base [] n = refl
persist_entries-snapshot_base (e ∷ es) n = refl

follow_commit-snapshot_base :
    (c : ℕ) (n : Node MemState) → snapshot_base (follow_commit c n) ≡ snapshot_base n
unfolding follow_commit advance_commit_to
follow_commit-snapshot_base c n = ground arith

-- No request changes the snapshot that the store holds.
pub handle_append_entries-snapshot_base :
    (req : AppendEntriesRequest) (n : Node MemState)
    → (handle_append_entries req n).0.success ≡ true
    → (handle_append_entries req n).1.storage.last_included_index ≡ n.storage.last_included_index
unfolding accept_entries
handle_append_entries-snapshot_base req n ok =
    ap snapshot_base (accepted req n ok).1
    ∙ (follow_commit-snapshot_base req.leader_commit _
        ∙ (persist_entries-snapshot_base req.entries _
            ∙ (merge_entries-snapshot_base req.entries _ _
                ∙ accept_leader-snapshot_base req.term req.leader_id n)))
