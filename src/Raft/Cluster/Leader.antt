-- ===== src/Raft/Cluster/Leader.antt =====
-- Who answers an election of raft/node.go, and who wins it.
use distributed_key_value_st.Raft.Cluster.Safety.{
  start_election-has_voted, leader_has_quorum, election_safety, granted-has_voted,
}
use distributed_key_value_st.Raft.Log.{quorum}
use distributed_key_value_st.Raft.Election.{on_vote_response, start_election, handle_request_vote}
use distributed_key_value_st.Raft.Cluster.{
  count_votes, some_voted, votes_for, granted_votes, has_voted, History,
}
use distributed_key_value_st.Raft.Step.Kept.{KeepsHardState}
use distributed_key_value_st.Base.{
  suc, inr, inl, ◌+◌, refl, ◌≢◌, length, ◌∙◌, Bool-cases, arith, ◌∷◌, ◌≤◌, true, ◌≡◌, [], List,
  String, ℕ,
}
use distributed_key_value_st.Raft.Types.{
  leader, RequestVoteRequest, RequestVoteResponse, Node, PersistentState,
}
use mathlib.Core.List.{Memᴰ, Permᴰ}

module _ {S : Type 0} ⦃p : PersistentState S⦄ where
  -- The state is one of those that the node has been in.
  abbrev pub HasBeen : Node S → History S → Type 0
  HasBeen n h = Memᴰ n (h.first ∷ h.later)

  -- The responses that came to the candidate `c` of the term `t`, one of a node at most, from nodes
  -- that ran HandleRequestVote for them. A node may stay silent, whether or not the request reached
  -- it. The second part of an answer is what the candidate had become when the response came.
  pub data Polled (t : ℕ) (c : String)
      : List (RequestVoteResponse × Node S) → List (History S) → Type 0 where
    nobody : Polled t c [] []
    silent :
        {answers : List (RequestVoteResponse × Node S)} {voters : List (History S)} (h : History S)
        → Polled t c answers voters
        → Polled t c answers (h ∷ voters)
    answered :
        {answers : List (RequestVoteResponse × Node S)} {voters : List (History S)}
        (req : RequestVoteRequest) (voter m : Node S) (h : History S)
        → req.term ≡ t
        → req.candidate_id ≡ c
        → HasBeen (handle_request_vote req voter).1 h
        → Polled t c answers voters
        → Polled t c (((handle_request_vote req voter).0, m) ∷ answers) (h ∷ voters)

-- One node of the cluster has started an election of the term `t`, and a response has made it leader.
pub record Won {S : Type 0} ⦃p : PersistentState S⦄ (t : ℕ) (c : String)
    (cluster : List (History S)) : Type 0 where
  pub before : Node S
  pub now : Node S
  pub own : History S
  pub others : List (History S)
  pub members : Permᴰ (own ∷ others) cluster
  pub size : length cluster ≡ 1 + length before.cfg.peers
  pub term : before.current_term + 1 ≡ t
  pub id : before.cfg.id ≡ c
  pub started : HasBeen (start_election before).1 own
  pub last_answer : RequestVoteResponse
  pub answers : List (RequestVoteResponse × Node S)
  pub polled : Polled t c ((last_answer, now) ∷ answers) others
  pub not_yet : now.role ≢ leader
  pub leads :
      (on_vote_response last_answer (count_votes answers (start_election before).0) now).1.role
      ≡ leader

module _ {S : Type 0} ⦃p : PersistentState S⦄ where
  some_voted-HasBeen :
      (t : ℕ) (c : String) (n : Node S) (ns : List (Node S))
      → has_voted t c n ≡ true
      → Memᴰ n ns
      → some_voted t c ns ≡ true
  some_voted-HasBeen t c n [] v k = elim k [ ]
  some_voted-HasBeen t c n (m ∷ ms) v (Memᴰ.head e) =
      let first : has_voted t c m ≡ true = rw⁻¹ e v in ground (arith, first)
  some_voted-HasBeen t c n (m ∷ ms) v (Memᴰ.tail k) =
      let rest = some_voted-HasBeen t c n ms v k in ground (arith, rest)

  -- The number of votes does not depend on the order of the nodes.
  votes_for-Perm :
      (t : ℕ) (c : String) (xs ys : List (History S))
      → Permᴰ xs ys
      → votes_for t c xs ≡ votes_for t c ys
  votes_for-Perm t c xs ys Permᴰ.nil = refl
  votes_for-Perm t c (x ∷ xs) (y ∷ ys) (Permᴰ.cons e k) = rw (e, votes_for-Perm t c xs ys k) refl
  votes_for-Perm t c (x ∷ x' ∷ xs) (y ∷ y' ∷ ys) (Permᴰ.swap e e') = rw (e, e') (ground arith)
  votes_for-Perm t c xs ys (Permᴰ.trans {l₂ = zs} k k') =
      votes_for-Perm t c xs zs k ∙ votes_for-Perm t c zs ys k'

module _ {S : Type 0} ⦃p : PersistentState S⦄ (laws : KeepsHardState p) where
  -- Each granted response is the vote of a node of its own.
  granted_votes-votes_for :
      (t : ℕ) (c : String) (answers : List (RequestVoteResponse × Node S)) (hs : List (History S))
      → Polled t c answers hs
      → granted_votes answers ≤ votes_for t c hs
  granted_votes-votes_for t c answers hs nobody = omega arith
  granted_votes-votes_for t c answers hs (silent {voters = vs} h k) =
      let rest = granted_votes-votes_for t c answers vs k in ground (arith, rest)
  granted_votes-votes_for t c answers hs
        (answered {answers = as_} {voters = vs} req voter m h et ec been k) =
      let rest = granted_votes-votes_for t c as_ vs k in
      elim (Bool-cases (handle_request_vote req voter).0.vote_granted) [
        | inl yes_ ↦
            let after = (handle_request_vote req voter).1 in
            let vote : has_voted t c after ≡ true =
              rw⁻¹ (et, ec) (granted-has_voted laws req voter yes_) in
            let counted = some_voted-HasBeen t c after (h.first ∷ h.later) vote been in
            ground (arith, rest, counted)
        | inr no_ ↦ ground (arith, rest, no_)
      ]

  -- The winner of an election has the votes of a quorum, its own among them.
  quorum_voted :
      (t : ℕ) (c : String) (cluster : List (History S)) (w : Won t c cluster)
      → quorum w.before ≤ votes_for t c cluster
  quorum_voted t c cluster w =
      let (_, yes_, enough) =
        leader_has_quorum w.before w.now w.answers w.last_answer w.not_yet w.leads in
      let given = granted_votes-votes_for t c _ w.others w.polled in
      let vote : has_voted t c (start_election w.before).1 ≡ true =
        rw⁻¹ (w.term, w.id) (start_election-has_voted w.before) in
      let counted = some_voted-HasBeen t c _ (w.own.first ∷ w.own.later) vote w.started in
      let all : suc (votes_for t c w.others) ≡ votes_for t c cluster =
        ground (arith, counted, votes_for-Perm t c (w.own ∷ w.others) cluster w.members) in
      ground (arith, yes_, enough, given, all)

  -- A term has one leader. Of a cluster whose nodes crash and restart at will, two candidates that
  -- have both become leader by a response to their election in the same term are the same one. The
  -- responses come in any order and at any time, not all have to come, and the nodes that gave them
  -- ran the vote handler of the code. Candidates have names, and the cluster is of the size that the
  -- winners' configurations give it. The stores give back the hard state that was saved last.
  pub one_leader :
      (t : ℕ) (c d : String) (cluster : List (History S))
      → c ≢ ""
      → d ≢ ""
      → Won t c cluster
      → Won t d cluster
      → c ≡ d
  unfolding quorum
  one_leader t c d cluster nc nd w v =
      let wins = quorum_voted t c cluster w in
      let wins' = quorum_voted t d cluster v in
      let sizes : length v.before.cfg.peers ≡ length w.before.cfg.peers =
        omega (arith, w.size, v.size) in
      election_safety laws t c d w.before cluster nc nd w.size wins (omega (arith, sizes, wins'))
