-- ===== src/Raft/Append/Conflict.antt =====
-- A rejected AppendEntries request, and the hint that it returns.
use distributed_key_value_st.Base.{
  ℕ, zero, suc, ◌+◌, ◌-◌, ◌≤◌, ◌<◌, ◌≡◌, ◌≢◌, ◌⊎◌, inl, inr, refl, true, false, some, ltb, leb,
  arith, Option-cases, Bool-cases,
}
use distributed_key_value_st.Raft.Types.{Node, LogEntry, PersistentState, AppendEntriesRequest}
use distributed_key_value_st.Raft.Log.{log_at, last_log_index}
use distributed_key_value_st.Raft.Election.{become_follower}
use distributed_key_value_st.Raft.Append.{
  has_term, first_of_term, consistency_check, accept_leader, handle_append_entries,
}
use distributed_key_value_st.Raft.Append.Success.{accept_leader-log}

pred_suc : (c : ℕ) → suc c - 1 ≡ c
pred_suc c = omega arith

module _ {S : Type 0} where
  -- The index that the loop stops at: every entry from it to the start has the term, and the entry
  -- before it has not, unless it is the first above the snapshot.
  pub record FirstOfTerm (n : Node S) (term start first : ℕ) : Type 0 where
    pub low : first ≤ start
    pub run : (j : ℕ) → first ≤ j → j ≤ start → has_term n j term ≡ true
    pub edge : (first ≤ n.last_included_index + 1) ⊎ (has_term n (first - 1) term ≡ false)

  FirstOfTerm-here :
      (n : Node S) (term c : ℕ)
      → has_term n c term ≡ true
      → (c ≤ n.last_included_index + 1) ⊎ (has_term n (c - 1) term ≡ false)
      → FirstOfTerm n term c c
  FirstOfTerm-here n term c h e = record {
    low = omega arith;
    run = λ j a b. let same : j ≡ c = omega arith in rw same h;
    edge = e;
  }

  FirstOfTerm-up :
      (n : Node S) (term c first : ℕ)
      → has_term n (suc c) term ≡ true
      → FirstOfTerm n term c first
      → FirstOfTerm n term (suc c) first
  FirstOfTerm-up n term c first h r = record {
    low = omega (arith, r.low);
    run = λ j a b. elim (Bool-cases (leb j c)) [
      | inl lower ↦ r.run j a (ground arith)
      | inr top ↦ let same : j ≡ suc c = ground arith in rw same h
    ];
    edge = r.edge;
  }

  pub first_of_term-FirstOfTerm :
      (n : Node S) (term c : ℕ)
      → has_term n c term ≡ true
      → FirstOfTerm n term c (first_of_term n term c)
  unfolding first_of_term
  first_of_term-FirstOfTerm n term zero h = FirstOfTerm-here n term 0 h (inl (omega arith))
  first_of_term-FirstOfTerm n term (suc c) h = elim (Bool-cases (has_term n c term)) [
    | inl more ↦ elim (Bool-cases (ltb (n.last_included_index + 1) (suc c))) [
      | inl above ↦
          rw (above, more) (FirstOfTerm-up n term c _ h (first_of_term-FirstOfTerm n term c more))
      | inr at ↦ rw at (FirstOfTerm-here n term (suc c) h (inl (ground arith)))
    ]
    | inr ends ↦
        let here = FirstOfTerm-here n term (suc c) h (inr (rw (pred_suc c) ends)) in
        elim (Bool-cases (ltb (n.last_included_index + 1) (suc c))) [
          | inl above ↦ rw (above, ends) here
          | inr at ↦ rw at here
        ]
  ]

  -- Why a request is refused, and what the hint says: the follower's log ends before the previous
  -- index, and the hint is the index behind its end; or the entry there has another term, and the
  -- hint is that term with the first index of its run.
  pub data Refused (req : AppendEntriesRequest) (n : Node S) (index term : ℕ) : Type 0 where
    too_short :
        last_log_index n < req.prev_log_index
        → index ≡ last_log_index n + 1
        → term ≡ 0
        → Refused req n index term
    other_term :
        has_term n req.prev_log_index term ≡ true
        → term ≢ req.prev_log_term
        → FirstOfTerm n term req.prev_log_index index
        → Refused req n index term

  mismatch :
      (req : AppendEntriesRequest) (n : Node S) (x : LogEntry) (index term : ℕ)
      → log_at n req.prev_log_index ≡ some x
      → ltb (last_log_index n) req.prev_log_index ≡ false
      → consistency_check req n ≡ some (index, term)
      → (x.term ≡ term)
        × (first_of_term n x.term req.prev_log_index ≡ index)
        × (term ≢ req.prev_log_term)
  unfolding consistency_check
  mismatch req n x index term e long h = ground (arith, e)

  held :
      (n : Node S) (x : LogEntry) (i term : ℕ)
      → log_at n i ≡ some x
      → x.term ≡ term
      → has_term n i term ≡ true
  unfolding has_term
  held n x i term e t = ground (arith, e)

  pub consistency_check-Refused :
      (req : AppendEntriesRequest) (n : Node S) (index term : ℕ)
      → consistency_check req n ≡ some (index, term)
      → Refused req n index term
  unfolding consistency_check
  consistency_check-Refused req n index term h =
      elim (Bool-cases (ltb (last_log_index n) req.prev_log_index)) [
        | inl short ↦ too_short (ground arith) (ground arith) (ground arith)
        | inr long ↦ elim (Option-cases (log_at n req.prev_log_index)) [
          | inl e ↦ absurd (ground (arith, e))
          | inr (x, e) ↦
              let (t, i, ne) = mismatch req n x index term e long h in
              let has : has_term n req.prev_log_index term ≡ true = held n x _ term e t in
              other_term has ne
                (rw (← i, t) (first_of_term-FirstOfTerm n term req.prev_log_index has))
        ]
      ]

module _ {S : Type 0} ⦃p : PersistentState S⦄ where
  rejected :
      (req : AppendEntriesRequest) (n : Node S) (index term : ℕ)
      → n.current_term ≤ req.term
      → (handle_append_entries req n).0.success ≡ false
      → (handle_append_entries req n).0.conflict_index ≡ index
      → (handle_append_entries req n).0.conflict_term ≡ term
      → (consistency_check req (accept_leader req.term req.leader_id n) ≡ some (index, term))
        × ((handle_append_entries req n).1 ≡ accept_leader req.term req.leader_id n)
  unfolding handle_append_entries
  rejected req n index term current bad i t = ground arith

  accept_leader-kept :
      (t : ℕ) (id : _) (n : Node S)
      → ((accept_leader t id n).commit_index ≡ n.commit_index)
        × ((accept_leader t id n).apply_ch ≡ n.apply_ch)
  unfolding accept_leader become_follower
  accept_leader-kept t id n = ground arith

  -- A request of a current term that is refused leaves the log, the commit index and what the
  -- application was sent as they were, and its hint says truly why: the log is too short, or the
  -- entry at the previous index has the hinted term, whose run of entries begins at the hinted index.
  pub handle_append_entries_refusal :
      (req : AppendEntriesRequest) (n : Node S)
      → n.current_term ≤ req.term
      → (handle_append_entries req n).0.success ≡ false
      → let (resp, m) = handle_append_entries req n in
        Refused req m resp.conflict_index resp.conflict_term
        × (m.log ≡ n.log)
        × (m.commit_index ≡ n.commit_index)
        × (m.apply_ch ≡ n.apply_ch)
  handle_append_entries_refusal req n current bad =
      let (check, out) = rejected req n _ _ current bad refl refl in
      let (same_log, _) = accept_leader-log req.term req.leader_id n in
      let (same_commit, same_sent) = accept_leader-kept req.term req.leader_id n in
      rw out (consistency_check-Refused req _ _ _ check, same_log, same_commit, same_sent)
