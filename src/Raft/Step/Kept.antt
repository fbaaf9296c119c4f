-- ===== src/Raft/Step/Kept.antt =====
-- What the parts of the handlers do to the term, the vote and the stored hard state.
use distributed_key_value_st.Base.{
  ℕ, ◌+◌, ◌-◌, ◌≤◌, ◌≡◌, ◌≢◌, refl, ◌∙◌, List, [], ◌∷◌, some, String, arith, Option-cases, inl, inr,
  Bytes,
}
use distributed_key_value_st.Raft.Types.{Node, LogEntry, PersistentState, AppendEntriesRequest}
use distributed_key_value_st.Raft.Log.{last_log_index}
use distributed_key_value_st.Raft.Election.{become_follower, become_leader, start_election}
use distributed_key_value_st.Raft.Commit.{commit_candidate, maybe_advance_commit, advance_commit_to}
use distributed_key_value_st.Raft.Append.{
  accept_leader, merge_entry, merge_entries, persist_entries, follow_commit, accept_entries,
}

-- What the votes need of a store: the hard state that was saved is loaded, and no other write
-- touches it.
pub record KeepsHardState {S : Type 0} (p : PersistentState S) : Type 0 where
  pub saved :
      (t : ℕ) (v : String) (s : S) → p.load_hard_state (p.save_hard_state t v s).0 ≡ some (t, v)
  pub appended :
      (es : List LogEntry) (s : S)
      → p.load_hard_state (p.append_entries es s).0 ≡ p.load_hard_state s
  pub cut_suffix :
      (k : ℕ) (s : S) → p.load_hard_state (p.truncate_suffix k s).0 ≡ p.load_hard_state s
  pub cut_prefix :
      (k : ℕ) (s : S) → p.load_hard_state (p.truncate_prefix k s).0 ≡ p.load_hard_state s
  pub snapshotted :
      (b : Bytes) (i t : ℕ) (s : S)
      → p.load_hard_state (p.save_snapshot b i t s).0 ≡ p.load_hard_state s

module _ {S : Type 0} ⦃p : PersistentState S⦄ where
  -- The store holds the node's term and vote.
  abbrev pub HardSynced : Node S → Type 0
  HardSynced n = p.load_hard_state n.storage ≡ some (n.current_term, n.voted_for)

  -- From `n` to `m` the term does not fall, a vote of the same term stays, and the store keeps up.
  pub record Kept (n m : Node S) : Type 0 where
    pub term : n.current_term ≤ m.current_term
    pub vote : n.current_term ≡ m.current_term → n.voted_for ≢ "" → m.voted_for ≡ n.voted_for
    pub stored : HardSynced n → HardSynced m

  pub Kept-refl : (n : Node S) → Kept n n
  Kept-refl n = record { term = omega arith; vote = λ _ _. refl; stored = λ h. h }

  pub Kept-trans : {n m k : Node S} → Kept n m → Kept m k → Kept n k
  Kept-trans {n} {m} {k} a b = record {
    term = omega (arith, a.term, b.term);
    vote = λ e v.
        let e1 : n.current_term ≡ m.current_term = omega (arith, a.term, b.term) in
        let e2 : m.current_term ≡ k.current_term = omega (arith, a.term, b.term) in
        b.vote e2 (rw (a.vote e1 v) v) ∙ a.vote e1 v;
    stored = λ h. b.stored (a.stored h);
  }

  -- A step that leaves term, vote and hard state alone.
  pub Kept-frame :
      {n m : Node S}
      → m.current_term ≡ n.current_term
      → m.voted_for ≡ n.voted_for
      → p.load_hard_state m.storage ≡ p.load_hard_state n.storage
      → Kept n m
  Kept-frame t v s = record {
    term = omega (arith, t);
    vote = λ _ _. v;
    stored = λ h. s ∙ (h ∙ cc (t, v));
  }

module _ {S : Type 0} ⦃p : PersistentState S⦄ (laws : KeepsHardState p) where
  pub become_follower-Kept :
      (t : ℕ) (n : Node S) → n.current_term ≤ t → Kept n (become_follower t n)
  unfolding become_follower
  become_follower-Kept t n h = ground (arith, laws.saved t "" n.storage)

  pub become_leader-Kept : (n : Node S) → Kept n (become_leader n)
  unfolding become_leader
  become_leader-Kept n = Kept-frame refl refl refl

  pub start_election-Kept : (n : Node S) → Kept n (start_election n).1
  unfolding start_election become_leader
  start_election-Kept n = ground (arith, laws.saved (n.current_term + 1) n.cfg.id n.storage)

  pub advance_commit_to-Kept : (c : ℕ) (n : Node S) → Kept n (advance_commit_to c n)
  unfolding advance_commit_to
  advance_commit_to-Kept c n = Kept-frame refl refl refl

  pub maybe_advance_commit-Kept : (n : Node S) → Kept n (maybe_advance_commit n)
  unfolding maybe_advance_commit
  maybe_advance_commit-Kept n =
      elim (Option-cases (commit_candidate n (last_log_index n - n.commit_index))) [
        | inl e ↦ rw (e, maybe_advance_commit) (Kept-refl n)
        | inr (idx, e) ↦ rw (e, maybe_advance_commit) (advance_commit_to-Kept idx n)
      ]

  pub accept_leader-Kept :
      (t : ℕ) (id : String) (n : Node S) → n.current_term ≤ t → Kept n (accept_leader t id n)
  unfolding accept_leader become_follower
  accept_leader-Kept t id n h = ground (arith, laws.saved t "" n.storage)

  pub merge_entry-Kept : (idx : ℕ) (e : LogEntry) (n : Node S) → Kept n (merge_entry idx e n)
  unfolding merge_entry
  merge_entry-Kept idx e n = ground (arith, laws.cut_suffix (idx - 1) n.storage)

  pub merge_entries-Kept :
      (es : List LogEntry) (idx : ℕ) (n : Node S) → Kept n (merge_entries idx es n)
  unfolding merge_entries
  merge_entries-Kept [] idx n = Kept-refl n
  merge_entries-Kept (e ∷ es) idx n =
      Kept-trans (merge_entry-Kept idx e n) (merge_entries-Kept es (idx + 1) (merge_entry idx e n))

  pub persist_entries-Kept : (es : List LogEntry) (n : Node S) → Kept n (persist_entries es n)
  unfolding persist_entries
  persist_entries-Kept [] n = Kept-refl n
  persist_entries-Kept (e ∷ es) n = Kept-frame refl refl (laws.appended (e ∷ es) n.storage)

  pub follow_commit-Kept : (c : ℕ) (n : Node S) → Kept n (follow_commit c n)
  unfolding follow_commit advance_commit_to
  follow_commit-Kept c n = ground arith

  pub accept_entries-Kept :
      (req : AppendEntriesRequest) (n : Node S) → Kept n (accept_entries req n)
  unfolding accept_entries
  accept_entries-Kept req n =
      Kept-trans (merge_entries-Kept req.entries _ n)
        (Kept-trans (persist_entries-Kept req.entries _) (follow_commit-Kept req.leader_commit _))
