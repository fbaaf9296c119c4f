-- ===== src/Raft/Replicate/Livelock.antt =====
-- raft/node.go: replicateToPeer and its back-up of nextIndex, for a follower whose log ends before
-- the leader's snapshot.
use distributed_key_value_st.Base.{
  subst, ℕ, zero, suc, ◌+◌, ◌≤◌, ◌<◌, ◌≡◌, refl, ◌∙◌, false, arith, String,
}
use distributed_key_value_st.Raft.Types.{
  Node, leader, PersistentState, AppendEntriesRequest, AppendEntriesResponse, peer_get,
}
use distributed_key_value_st.Raft.Types.Peers.{peer_get-set_self}
use distributed_key_value_st.Raft.Log.{last_log_index}
use distributed_key_value_st.Raft.Append.{accept_leader, consistency_check, handle_append_entries}
use distributed_key_value_st.Raft.Append.Success.{accept_leader-log}
use distributed_key_value_st.Raft.Election.{become_follower}
use distributed_key_value_st.Raft.Replicate.{
  send_entries, append_request, replicate_to_peer, backed_up, back_up_peer, on_append_response,
}

module _ {S : Type 0} ⦃p : PersistentState S⦄ where
  -- The leader `n` knows the follower `f` as `peer`, and backed up to the index just above its
  -- snapshot; the follower's log ends below the snapshot.
  pub record Stuck (peer : String) (n f : Node S) : Type 0 where
    pub leads : n.role ≡ leader
    pub next : peer_get n.next_index peer ≡ n.last_included_index + 1
    pub short : last_log_index f < n.last_included_index
    pub current : f.current_term ≤ n.current_term

  -- One call of replicateToPeer that reaches the follower, and the response that comes back.
  unfoldable pub exchange : String → Node S × Node S → Node S × Node S
  exchange peer (n, f) = elim (replicate_to_peer peer n) [
    | send_entries req ↦
        let (resp, f') = handle_append_entries req f in (on_append_response peer req resp n, f')
    | _ ↦ (n, f)
  ]

  unfoldable pub exchanges : ℕ → String → Node S × Node S → Node S × Node S
  exchanges zero peer nf = nf
  exchanges (suc k) peer nf = exchanges k peer (exchange peer nf)

  sends :
      (peer : String) (n f : Node S)
      → Stuck peer n f
      → replicate_to_peer peer n ≡ send_entries (append_request (n.last_included_index + 1) n)
  unfolding replicate_to_peer
  sends peer n f s = ground (arith, s.leads, s.next)

  last_log_index-accept_leader :
      (t : ℕ) (id : String) (f : Node S) → last_log_index (accept_leader t id f) ≡ last_log_index f
  unfolding last_log_index
  last_log_index-accept_leader t id f = let (l, b) = accept_leader-log t id f in rw (l, b) refl

  accept_leader-term :
      (t : ℕ) (id : String) (f : Node S)
      → f.current_term ≤ t
      → (accept_leader t id f).current_term ≡ t
  unfolding accept_leader become_follower
  accept_leader-term t id f h = ground arith

  refuses :
      (req : AppendEntriesRequest) (f : Node S)
      → f.current_term ≤ req.term
      → last_log_index f < req.prev_log_index
      → ((handle_append_entries req f).0 ≡ record {
        term = req.term;
        success = false;
        match_index = 0;
        conflict_term = 0;
        conflict_index = last_log_index f + 1;
      })
        × ((handle_append_entries req f).1 ≡ accept_leader req.term req.leader_id f)
  unfolding handle_append_entries consistency_check
  refuses req f current short = ground (
    arith,
    last_log_index-accept_leader req.term req.leader_id f,
    accept_leader-term req.term req.leader_id f,
  )

  too_short : Node S → Node S → AppendEntriesResponse
  too_short n f = record {
    term = n.current_term;
    success = false;
    match_index = 0;
    conflict_term = 0;
    conflict_index = last_log_index f + 1;
  }

  backs_up :
      (peer : String) (n f : Node S)
      → Stuck peer n f
      → on_append_response peer (append_request (n.last_included_index + 1) n) (too_short n f) n
        ≡ back_up_peer peer (too_short n f) n
  unfolding on_append_response append_request too_short
  backs_up peer n f s = ground (arith, s.leads)

  back_up_short :
      (peer : String) (n f : Node S)
      → last_log_index f < n.last_included_index
      → let m = back_up_peer peer (too_short n f) n in
        (peer_get m.next_index peer ≡ n.last_included_index + 1)
        × (m.role ≡ n.role)
        × (m.last_included_index ≡ n.last_included_index)
        × (m.current_term ≡ n.current_term)
  unfolding back_up_peer backed_up too_short
  back_up_short peer n f short =
      (peer_get-set_self n.next_index peer _ ∙ ground arith, refl, refl, refl)

  refused :
      (peer : String) (n f : Node S)
      → Stuck peer n f
      → let req = append_request (n.last_included_index + 1) n in
        ((handle_append_entries req f).0 ≡ too_short n f)
        × ((handle_append_entries req f).1 ≡ accept_leader n.current_term n.cfg.id f)
  unfolding append_request too_short
  refused peer n f s =
      refuses (append_request (n.last_included_index + 1) n) f s.current (omega (arith, s.short))

  exchange-eq :
      (peer : String) (n f : Node S)
      → Stuck peer n f
      → exchange peer (n, f)
        ≡ (back_up_peer peer (too_short n f) n, accept_leader n.current_term n.cfg.id f)
  unfolding exchange
  exchange-eq peer n f s =
      let (answer, follower_after) = refused peer n f s in
      rw (sends peer n f s, exchange) (cc (answer, follower_after, backs_up peer n f s))

  exchange-Stuck :
      (peer : String) (n f : Node S)
      → Stuck peer n f
      → Stuck peer (exchange peer (n, f)).0 (exchange peer (n, f)).1
  exchange-Stuck peer n f s =
      let (a, b, c, d) = back_up_short peer n f s.short in
      let t = accept_leader-term n.current_term n.cfg.id f s.current in
      let l = last_log_index-accept_leader n.current_term n.cfg.id f in
      rw (exchange-eq peer n f s) (record {
        leads = b ∙ s.leads;
        next = omega (arith, a, c);
        short = omega (arith, l, c, s.short);
        current = omega (arith, t, d);
      })

  exchange-same :
      (peer : String) (n f : Node S)
      → Stuck peer n f
      → ((exchange peer (n, f)).0.last_included_index ≡ n.last_included_index)
        × (last_log_index (exchange peer (n, f)).1 ≡ last_log_index f)
  exchange-same peer n f s =
      let (_, _, c, _) = back_up_short peer n f s.short in
      rw (exchange-eq peer n f s) (c, last_log_index-accept_leader n.current_term n.cfg.id f)

  -- The pair stays stuck, with the same snapshot and the same end of the follower's log.
  exchanges-Stuck :
      (k : ℕ) (peer : String) (n f : Node S)
      → Stuck peer n f
      → let after = exchanges k peer (n, f) in
        Stuck peer after.0 after.1
        × (after.0.last_included_index ≡ n.last_included_index)
        × (last_log_index after.1 ≡ last_log_index f)
  unfolding exchanges
  exchanges-Stuck zero peer n f s = (s, refl, refl)
  exchanges-Stuck (suc k) peer n f s =
      let (base, end_) = exchange-same peer n f s in
      let (t, base', end') =
        exchanges-Stuck k peer (exchange peer (n, f)).0 (exchange peer (n, f)).1
          (exchange-Stuck peer n f s) in
      (t, base' ∙ base, end' ∙ end_)

  -- A leader that backed up to the index just above its snapshot, for a follower whose log ends
  -- below the snapshot, never sends the snapshot that the follower needs: after any number of
  -- exchanges with it, the leader's next call sends the entries from just above the snapshot once
  -- more, and the follower's log ends where it did. The follower's term is not above the leader's,
  -- and nothing but these exchanges happens.
  pub lagging_follower_never_gets_snapshot :
      (k : ℕ) (peer : String) (n f : Node S)
      → Stuck peer n f
      → let after = exchanges k peer (n, f) in
        (replicate_to_peer peer after.0
          ≡ send_entries (append_request (n.last_included_index + 1) after.0))
        × (last_log_index after.1 ≡ last_log_index f)
  lagging_follower_never_gets_snapshot k peer n f s =
      let (t, base, end_) = exchanges-Stuck k peer n f s in
      let after = exchanges k peer (n, f) in
      (
        subst (λ i. replicate_to_peer peer after.0 ≡ send_entries (append_request (i + 1) after.0))
            base (sends peer after.0 after.1 t),
        end_,
      )
