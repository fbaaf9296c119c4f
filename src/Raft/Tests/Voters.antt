-- ===== src/Raft/Tests/Voters.antt =====
-- The theorems about votes at a concrete node.
use distributed_key_value_st.Raft.Cluster.Safety.{leader_has_quorum}
use distributed_key_value_st.Raft.Cluster.{count_votes}
use distributed_key_value_st.Base.{[], ◌+◌, sym, str_eq, ap, ◌≤◌, ◌≡◌, ◌≢◌, refl, true, false}
use distributed_key_value_st.Raft.Types.{leader, RequestVoteResponse, Node, RequestVoteRequest}
use distributed_key_value_st.Raft.Log.{quorum, last_log_index, candidate_log_up_to_date}
use distributed_key_value_st.Raft.MemState.{MemState, mem_state}
use distributed_key_value_st.Raft.Election.{
  become_leader, on_vote_response, start_election, handle_request_vote, decide_vote,
}
use distributed_key_value_st.Raft.Step.{next, Reach, vote_requested, here}
use distributed_key_value_st.Raft.Step.Kept.{HardSynced}
use distributed_key_value_st.Raft.Step.Votes.{
  mem_state-KeepsHardState, Reach-HardSynced, vote_is_final,
}
use distributed_key_value_st.Raft.Tests.{node}

-- The node n3, for which the node has voted, asks again.
abbrev pub ask_again : RequestVoteRequest
ask_again = record { term = 2; candidate_id = "n3"; last_log_index = 3; last_log_term = 1 }

abbrev asked : Node MemState
asked = (handle_request_vote ask_again node).1

asked-Reach : Reach node asked
asked-Reach = next here (vote_requested ask_again node)

Reach-HardSynced_example : (node.current_term ≤ asked.current_term) × HardSynced asked
Reach-HardSynced_example = Reach-HardSynced mem_state-KeepsHardState node asked refl asked-Reach

asked_grants : (handle_request_vote ask_again asked).0.vote_granted ≡ true
unfolding handle_request_vote decide_vote candidate_log_up_to_date last_log_index
asked_grants = refl

named : node.voted_for ≢ ""
named e = let same : false ≡ true = ap (λ s. str_eq s "n3") (sym e) in absurd (cc same)

vote_is_final_example : "n3" ≡ node.voted_for
vote_is_final_example =
    vote_is_final mem_state-KeepsHardState node asked ask_again refl named asked-Reach asked_grants
      refl

-- One of the two peers grants its vote.
abbrev grant : RequestVoteResponse
grant = record { term = 3; vote_granted = true }

abbrev campaigning : Node MemState
campaigning = (start_election node).1

campaigning-idle : campaigning.role ≢ leader
unfolding start_election quorum
campaigning-idle e = absurd (cc e)

campaigning_wins :
    (on_vote_response grant
      (count_votes {S = MemState} [] (start_election node).0)
      campaigning).1.role
    ≡ leader
unfolding start_election quorum on_vote_response count_votes become_leader
campaigning_wins = refl

leader_has_quorum_example :
    (campaigning.current_term ≡ node.current_term + 1)
    × (grant.vote_granted ≡ true)
    × (quorum node ≤ 1 + (0 + 1))
leader_has_quorum_example =
    leader_has_quorum node campaigning [] grant campaigning-idle campaigning_wins
