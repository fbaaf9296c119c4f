-- ===== src/Raft/Commit/Alone.antt =====
-- Propose in a cluster of one node.
use distributed_key_value_st.Raft.Log.Read.{log_at-add}
use distributed_key_value_st.Raft.Log.{log_at, last_log_index, quorum}
use distributed_key_value_st.Raft.Accessors.{is_leader_role}
use distributed_key_value_st.Raft.Commit.{
  entries_from, commit_candidate, advance_commit_to, maybe_advance_commit, propose, own_entry,
  can_commit, append_own,
}
use distributed_key_value_st.Raft.Election.{send_heartbeats}
use distributed_key_value_st.Base.{
  map, refl, zero, suc, length-append, get_elem?-append_right, ◌∷◌, ◌++◌, get_elem?, ◌∙◌, ap, ◌-◌,
  some, length, ◌<◌, arith, [], true, ◌+◌, ◌≡◌, Bytes,
}
use distributed_key_value_st.Raft.Types.{Node, command, PersistentState}

module _ {S : Type 0} ⦃p : PersistentState S⦄ where
  -- The leader of a cluster of one has committed its whole log.
  pub record Alone (n : Node S) : Type 0 where
    pub leads : is_leader_role n.role ≡ true
    pub no_peers : n.cfg.peers ≡ []
    pub has_sentinel : 0 < length n.log
    pub committed : n.commit_index ≡ last_log_index n

  grown : Bytes → Node S → Node S
  grown payload n = send_heartbeats (append_own (own_entry payload n) n)

  grown-log_at :
      (payload : Bytes) (n : Node S)
      → 0 < length n.log
      → log_at (grown payload n) (last_log_index n + 1) ≡ some (own_entry payload n)
  unfolding grown append_own send_heartbeats last_log_index
  grown-log_at payload n h =
      let e = own_entry payload n in
      let place : n.last_included_index + length n.log - 1 + 1
          ≡ n.last_included_index + length n.log =
        omega arith in
      let at_ : length n.log ≡ length n.log + 0 = omega arith in
      ap (log_at (grown payload n)) place
      ∙ (log_at-add (grown payload n) (length n.log)
          ∙ (ap (get_elem? (n.log ++ e ∷ [])) at_ ∙ get_elem?-append_right n.log (e ∷ []) 0))

  grown-can_commit :
      (payload : Bytes) (n : Node S)
      → Alone n
      → can_commit (grown payload n) (last_log_index n + 1) ≡ true
  unfolding can_commit grown append_own send_heartbeats quorum own_entry
  grown-can_commit payload n a =
      let h = grown-log_at payload n a.has_sentinel in rw (h, can_commit, a.no_peers) (ground arith)

  grown-last :
      (payload : Bytes) (n : Node S)
      → 0 < length n.log
      → last_log_index (grown payload n) ≡ last_log_index n + 1
  unfolding last_log_index grown append_own send_heartbeats
  grown-last payload n h = omega (arith, length-append n.log (own_entry payload n ∷ []))

  proposes :
      (payload : Bytes) (n : Node S)
      → is_leader_role n.role ≡ true
      → propose payload n ≡ (
        record { index = last_log_index n + 1; term = n.current_term; is_leader = true },
        maybe_advance_commit (grown payload n),
      )
  unfolding propose own_entry grown
  proposes payload n h = ground (arith, h)

  grown-commit_index :
      (payload : Bytes) (n : Node S) → (grown payload n).commit_index ≡ n.commit_index
  unfolding grown append_own send_heartbeats
  grown-commit_index payload n = refl

  grown-candidate :
      (payload : Bytes) (n : Node S)
      → Alone n
      → commit_candidate
          (grown payload n)
          (last_log_index (grown payload n) - (grown payload n).commit_index)
        ≡ some (last_log_index n + 1)
  unfolding commit_candidate
  grown-candidate payload n a =
      let m = grown payload n in
      let last = grown-last payload n a.has_sentinel in
      let start = grown-commit_index payload n in
      let one : last_log_index m - m.commit_index ≡ suc zero =
        omega (arith, last, start, a.committed) in
      let next : m.commit_index + suc zero ≡ last_log_index n + 1 =
        omega (arith, start, a.committed) in
      rw (one, commit_candidate, next, grown-can_commit payload n a) refl

  grown-sent :
      (payload : Bytes) (n : Node S)
      → Alone n
      → entries_from
          (grown payload n)
          ((grown payload n).commit_index + 1)
          (last_log_index n + 1 - (grown payload n).commit_index)
        ≡ own_entry payload n ∷ []
  unfolding entries_from
  grown-sent payload n a =
      let m = grown payload n in
      let start = grown-commit_index payload n in
      let one : last_log_index n + 1 - m.commit_index ≡ suc zero =
        omega (arith, start, a.committed) in
      let next : m.commit_index + 1 ≡ last_log_index n + 1 = omega (arith, start, a.committed) in
      rw (one, next, grown-log_at payload n a.has_sentinel, entries_from) refl

  advanced :
      (payload : Bytes) (n : Node S)
      → Alone n
      → let m = advance_commit_to (last_log_index n + 1) (grown payload n) in
        (m.apply_ch ≡ n.apply_ch ++ command (own_entry payload n) ∷ []) × Alone m
  unfolding advance_commit_to grown append_own send_heartbeats last_log_index
  advanced payload n a =
      let e = own_entry payload n in
      let longer = length-append n.log (e ∷ []) in
      (
        ap (λ es. n.apply_ch ++ map command es) (grown-sent payload n a),
        record {
          leads = a.leads;
          no_peers = a.no_peers;
          has_sentinel = omega (arith, longer);
          committed = omega (arith, longer, a.has_sentinel);
        },
      )

  -- Propose in a cluster of one commits the entry at once and sends it to the application, behind
  -- what was sent before, and again the whole log is committed. The node is the leader and has
  -- committed its whole log.
  pub propose-Alone :
      (payload : Bytes) (n : Node S)
      → Alone n
      → ((propose payload n).0
          ≡ record { index = last_log_index n + 1; term = n.current_term; is_leader = true })
        × ((propose payload n).1.apply_ch ≡ n.apply_ch ++ command (own_entry payload n) ∷ [])
        × Alone (propose payload n).1
  unfolding maybe_advance_commit
  propose-Alone payload n a =
      let m = grown payload n in
      let next = last_log_index n + 1 in
      let moved : maybe_advance_commit m ≡ advance_commit_to next m =
        rw (grown-candidate payload n a, maybe_advance_commit) refl in
      rw (proposes payload n a.leads, moved)
        (refl, (advanced payload n a).0, (advanced payload n a).1)
