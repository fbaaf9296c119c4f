-- ===== src/Raft/Cluster/Safety.antt =====
-- At most one candidate has the votes of a majority in a term, and only such a one becomes leader.
use distributed_key_value_st.Raft.Log.{quorum}
use distributed_key_value_st.Raft.Election.{
  handle_request_vote, become_leader, Election, become_follower, start_election, on_vote_response,
}
use distributed_key_value_st.Raft.Step.Votes.{granted, Reach-Kept}
use distributed_key_value_st.Raft.Cluster.{
  granted_votes, votes_for, History, count_votes, has_voted, some_voted, Linked,
}
use distributed_key_value_st.Raft.Step.Kept.{
  Kept-trans, Kept-refl, Kept, HardSynced, KeepsHardState,
}
use distributed_key_value_st.Base.{
  eq_refl, refl, str_eq, if◌then◌else◌, ◌≤◌, ◌+◌, length, [], inr, inl, Bool-cases, ◌∙◌, sym,
  eq_iff, arith, true, ◌∷◌, ◌≢◌, ◌≡◌, List, ℕ, String,
}
use distributed_key_value_st.Raft.Types.{
  RequestVoteRequest, leader, RequestVoteResponse, Node, PersistentState,
}

module _ {S : Type 0} ⦃p : PersistentState S⦄ (laws : KeepsHardState p) where
  -- Once a node has voted in a term, all its later votes of that term are the same.
  later_vote :
      (t : ℕ) (c d : String) (n m : Node S) (ms : List (Node S))
      → n.current_term ≡ t
      → n.voted_for ≡ c
      → c ≢ ""
      → Kept n m
      → HardSynced m
      → Linked m ms
      → some_voted t d (m ∷ ms) ≡ true
      → c ≡ d
  later_vote t c d n m [] ht hc named k s l v =
      let now : m.current_term ≡ n.current_term = ground (arith, v, ht) in
      let vote : m.voted_for ≡ d = ground (arith, v, eq_iff m.voted_for d) in
      let named' : n.voted_for ≢ "" = rw hc named in sym hc ∙ (sym (k.vote (sym now) named') ∙ vote)
  later_vote t c d n m (x ∷ ms) ht hc named k s (r, l) v = elim (Bool-cases (has_voted t d m)) [
    | inl h ↦
        let now : m.current_term ≡ n.current_term = ground (arith, h, ht) in
        let vote : m.voted_for ≡ d = ground (arith, h, eq_iff m.voted_for d) in
        let named' : n.voted_for ≢ "" = rw hc named in
        sym hc ∙ (sym (k.vote (sym now) named') ∙ vote)
    | inr h ↦
        let rest : some_voted t d (x ∷ ms) ≡ true = ground (arith, h, v) in
        let step = Reach-Kept laws s r in
        later_vote t c d n x ms ht hc named (Kept-trans k step) (step.stored s) l rest
  ]

  one_vote :
      (t : ℕ) (c d : String) (n : Node S) (ms : List (Node S))
      → HardSynced n
      → Linked n ms
      → c ≢ ""
      → d ≢ ""
      → some_voted t c (n ∷ ms) ≡ true
      → some_voted t d (n ∷ ms) ≡ true
      → c ≡ d
  one_vote t c d n [] s l nc nd vc vd =
      let first : n.voted_for ≡ c = ground (arith, vc, eq_iff n.voted_for c) in
      let second : n.voted_for ≡ d = ground (arith, vd, eq_iff n.voted_for d) in sym first ∙ second
  one_vote t c d n (m ∷ ms) s (r, l) nc nd vc vd = elim (Bool-cases (has_voted t c n)) [
    | inl h ↦
        later_vote t c d n n (m ∷ ms) (ground (arith, h)) (ground (arith, h, eq_iff n.voted_for c))
          nc (Kept-refl n) s (r, l) vd
    | inr h ↦ elim (Bool-cases (has_voted t d n)) [
      | inl g ↦ sym (
          later_vote t d c n n (m ∷ ms) (ground (arith, g))
            (ground (arith, g, eq_iff n.voted_for d)) nd (Kept-refl n) s (r, l) vc)
      | inr g ↦
          one_vote t c d m ms ((Reach-Kept laws s r).stored s) l nc nd (ground (arith, h, vc))
            (ground (arith, g, vd))
    ]
  ]

  -- Two candidates share no voter.
  votes_apart :
      (t : ℕ) (c d : String) (cluster : List (History S))
      → c ≢ ""
      → d ≢ ""
      → c ≢ d
      → votes_for t c cluster + votes_for t d cluster ≤ length cluster
  votes_apart t c d [] nc nd ne = omega arith
  votes_apart t c d (h ∷ hs) nc nd ne =
      let rest = votes_apart t c d hs nc nd ne in
      elim (Bool-cases (some_voted t c (h.first ∷ h.later))) [
        | inl vc ↦ elim (Bool-cases (some_voted t d (h.first ∷ h.later))) [
          | inl vd ↦ absurd (ne (one_vote t c d h.first h.later h.synced h.linked nc nd vc vd))
          | inr vd ↦ rw (vc, vd) (omega (arith, rest))
        ]
        | inr vc ↦ elim (Bool-cases (some_voted t d (h.first ∷ h.later))) [
          | inl vd ↦ rw (vc, vd) (omega (arith, rest))
          | inr vd ↦ rw (vc, vd) (omega (arith, rest))
        ]
      ]

  -- Election safety: two candidates that each have the votes of a quorum of the cluster in the same
  -- term are the same, whatever the handlers of the nodes have done and however often nodes have
  -- crashed and restarted. Candidates have names, and the cluster is of the size that a node's
  -- configuration gives it.
  pub election_safety :
      (t : ℕ) (c d : String) (n : Node S) (cluster : List (History S))
      → c ≢ ""
      → d ≢ ""
      → length cluster ≡ 1 + length n.cfg.peers
      → quorum n ≤ votes_for t c cluster
      → quorum n ≤ votes_for t d cluster
      → c ≡ d
  unfolding quorum
  election_safety t c d n cluster nc nd size vc vd = elim (Bool-cases (str_eq c d)) [
    | inl same ↦ (eq_iff c d).0 same
    | inr other ↦
        let ne : c ≢ d = λ same. absurd (cc ((eq_iff c d).1 same, other)) in
        let apart = votes_apart t c d cluster nc nd ne in
        absurd (omega (arith, size, apart, vc, vd))
  ]

  -- The state that a granted vote leaves counts as one in which the node has voted for the candidate.
  pub granted-has_voted :
      (req : RequestVoteRequest) (n : Node S)
      → (handle_request_vote req n).0.vote_granted ≡ true
      → has_voted req.term req.candidate_id (handle_request_vote req n).1 ≡ true
  granted-has_voted req n h =
      let (le, t, v) = granted laws req n h in rw (t, v, eq_refl req.candidate_id) (ground arith)

module _ {S : Type 0} ⦃p : PersistentState S⦄ where
  -- One response counts once at most, and only if it grants the vote.
  on_vote_response-counts :
      (resp : RequestVoteResponse) (e : Election) (n : Node S)
      → ((on_vote_response resp e n).0.needed ≡ e.needed)
        × ((on_vote_response resp e n).0.term ≡ e.term)
        × ((on_vote_response resp e n).0.votes ≤ e.votes + (if resp.vote_granted then 1 else 0))
  unfolding on_vote_response
  on_vote_response-counts resp e n = ground arith

  count_votes-counts :
      (answers : List (RequestVoteResponse × Node S)) (e : Election)
      → ((count_votes answers e).needed ≡ e.needed)
        × ((count_votes answers e).term ≡ e.term)
        × ((count_votes answers e).votes ≤ e.votes + granted_votes answers)
  unfolding count_votes
  count_votes-counts [] e = (refl, refl, omega arith)
  count_votes-counts ((resp, n) ∷ answers) e =
      let (k, t, v) = on_vote_response-counts resp e n in
      let (k', t', v') = count_votes-counts answers (on_vote_response resp e n).0 in
      (k' ∙ k, t' ∙ t, ground (arith, v, v'))

  -- What it takes for a response to make a leader of a node that is none.
  wins :
      (resp : RequestVoteResponse) (e : Election) (m : Node S)
      → m.role ≢ leader
      → (on_vote_response resp e m).1.role ≡ leader
      → (resp.vote_granted ≡ true) × (m.current_term ≡ e.term) × (e.needed ≤ e.votes + 1)
  unfolding on_vote_response become_follower
  wins resp e m idle won = ground (arith, won, idle)

  -- A node becomes leader by a response only in the term of its election, and only when the responses
  -- so far that grant the vote, with its own vote, are a quorum of the cluster. The responses come in
  -- any order, each at whatever the node has become by then.
  pub leader_has_quorum :
      (n m : Node S) (answers : List (RequestVoteResponse × Node S)) (resp : RequestVoteResponse)
      → m.role ≢ leader
      → ((on_vote_response resp (count_votes answers (start_election n).0) m).1.role ≡ leader)
      → (m.current_term ≡ n.current_term + 1)
        × (resp.vote_granted ≡ true)
        × (quorum n ≤ 1 + (granted_votes answers + 1))
  unfolding start_election quorum
  leader_has_quorum n m answers resp idle won =
      let e = (start_election n).0 in
      let (k, t, v) = count_votes-counts answers e in
      let (yes_, now, enough) = wins resp (count_votes answers e) m idle won in
      (ground (arith, t, now), yes_, ground (arith, k, v, enough))

  -- A node that starts an election has voted for itself.
  pub start_election-has_voted :
      (n : Node S) → has_voted (n.current_term + 1) n.cfg.id (start_election n).1 ≡ true
  unfolding start_election become_leader
  start_election-has_voted n = ground (arith, eq_refl n.cfg.id)
