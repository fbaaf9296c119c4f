-- ===== src/Raft/Tests/Terms.antt =====
-- The theorem about leaders at an election in which one of the two peers answers.
use distributed_key_value_st.Raft.Step.Votes.{mem_state-KeepsHardState}
use distributed_key_value_st.Raft.MemState.{MemState}
use distributed_key_value_st.Raft.Log.{last_log_index, candidate_log_up_to_date, quorum}
use distributed_key_value_st.Raft.Cluster.Leader.{nobody, silent, answered, one_leader, Won}
use distributed_key_value_st.Raft.Cluster.{count_votes, History}
use distributed_key_value_st.Raft.Types.{leader, RequestVoteRequest, Node}
use distributed_key_value_st.Base.{sym, str_eq, ap, true, refl, false, [], ◌∷◌, ◌≡◌, ◌≢◌, List}
use distributed_key_value_st.Raft.Election.{
  become_follower, decide_vote, become_leader, handle_request_vote, on_vote_response, vote_request,
  election_timeout, start_election,
}
use distributed_key_value_st.Raft.Tests.{node}
use distributed_key_value_st.Raft.MemState.{mem_state}
use distributed_key_value_st.Raft.Step.{Reach, timed_out, vote_requested, next, here}
use mathlib.Core.List.{Memᴰ, Permᴰ}

abbrev campaigning : Node MemState
campaigning = (start_election node).1

campaigning-Reach : Reach node campaigning
unfolding election_timeout
campaigning-Reach = next here (timed_out node (start_election node).0 campaigning refl)

abbrev own : History MemState
own = record {
  first = node;
  later = campaigning ∷ [];
  synced = refl;
  linked = (campaigning-Reach, tt);
}

abbrev peer : Node MemState
peer = record node { cfg = record node.cfg { id = "n2" } }

abbrev request : RequestVoteRequest
request = vote_request campaigning

abbrev after : Node MemState
after = (handle_request_vote request peer).1

abbrev granting : History MemState
granting = record {
  first = peer;
  later = after ∷ [];
  synced = refl;
  linked = (next here (vote_requested request peer), tt);
}

abbrev silent_peer : History MemState
silent_peer = record { first = peer; later = []; synced = refl; linked = tt }

abbrev cluster : List (History MemState)
cluster = granting ∷ own ∷ silent_peer ∷ []

campaigning-idle : campaigning.role ≢ leader
unfolding start_election quorum
campaigning-idle e = absurd (cc e)

campaigning_wins :
    (on_vote_response
      (handle_request_vote request peer).0
      (count_votes {S = MemState} [] (start_election node).0)
      campaigning).1.role
    ≡ leader
unfolding start_election quorum on_vote_response count_votes become_leader handle_request_vote
    decide_vote candidate_log_up_to_date last_log_index vote_request become_follower
campaigning_wins = refl

request-fields : (request.term ≡ 3) × (request.candidate_id ≡ node.cfg.id)
unfolding start_election quorum vote_request
request-fields = (refl, refl)

won : Won 3 node.cfg.id cluster
won = record {
  before = node;
  now = campaigning;
  own = own;
  others = granting ∷ silent_peer ∷ [];
  members = Permᴰ.swap refl refl;
  size = refl;
  term = refl;
  id = refl;
  started = Memᴰ.tail (Memᴰ.head refl);
  last_answer = (handle_request_vote request peer).0;
  answers = [];
  polled =
      answered request peer campaigning granting request-fields.0 request-fields.1
        (Memᴰ.tail (Memᴰ.head refl)) (silent silent_peer nobody);
  not_yet = campaigning-idle;
  leads = campaigning_wins;
}

named : node.cfg.id ≢ ""
named e = let same : false ≡ true = ap (λ s. str_eq s node.cfg.id) (sym e) in absurd (cc same)

one_leader_example : node.cfg.id ≡ node.cfg.id
one_leader_example =
    one_leader mem_state-KeepsHardState 3 node.cfg.id node.cfg.id cluster named named won won
