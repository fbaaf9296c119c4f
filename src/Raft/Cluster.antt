-- ===== src/Raft/Cluster.antt =====
-- Elections in a cluster: what the nodes have been in the course of time, and the count of votes in
-- startElection of raft/node.go.
pub mod Safety
pub mod Leader
use distributed_key_value_st.Raft.Step.{Reach}
use distributed_key_value_st.Raft.Election.{on_vote_response, Election}
use distributed_key_value_st.Raft.Step.Kept.{HardSynced}
use distributed_key_value_st.Base.{
  [], suc, if◌then◌else◌, ◌||◌, ◌∷◌, str_eq, ◌&&◌, false, ◌==◌, Bool, ℕ, List, String,
}
use distributed_key_value_st.Raft.Types.{RequestVoteResponse, Node, PersistentState}

module _ {S : Type 0} where
  -- How many of the responses grant the vote.
  abbrev pub granted_votes : List (RequestVoteResponse × Node S) → ℕ
  granted_votes [] = 0
  granted_votes ((resp, n) ∷ answers) =
      let rest = granted_votes answers in if resp.vote_granted then suc rest else rest

  -- The state is one in which the node has voted for `c` in the term `t`.
  abbrev pub has_voted : ℕ → String → Node S → Bool
  has_voted t c n = n.current_term == t && str_eq n.voted_for c

  abbrev pub some_voted : ℕ → String → List (Node S) → Bool
  some_voted t c [] = false
  some_voted t c (n ∷ ns) = let rest = some_voted t c ns in has_voted t c n || rest

module _ {S : Type 0} ⦃p : PersistentState S⦄ where
  -- The goroutines of one election, in the order in which their responses come, each at whatever the
  -- node has become by then.
  unfoldable pub count_votes : List (RequestVoteResponse × Node S) → Election → Election
  count_votes [] e = e
  count_votes ((resp, n) ∷ answers) e = count_votes answers (on_vote_response resp e n).0

  -- Each state is reached from the one before it.
  abbrev pub Linked : Node S → List (Node S) → Type 0
  Linked n [] = Unit {0}
  Linked n (m ∷ ms) = Reach n m × Linked m ms

-- What one node has been, crashes and restarts included; its store held its term and vote at first.
pub record History (S : Type 0) ⦃p : PersistentState S⦄ : Type 0 where
  pub first : Node S
  pub later : List (Node S)
  pub synced : HardSynced first
  pub linked : Linked first later

module _ {S : Type 0} ⦃p : PersistentState S⦄ where
  -- The number of nodes that have voted for `c` in the term `t`.
  abbrev pub votes_for : ℕ → String → List (History S) → ℕ
  votes_for t c [] = 0
  votes_for t c (h ∷ hs) =
      let rest = votes_for t c hs in if some_voted t c (h.first ∷ h.later) then suc rest else rest
