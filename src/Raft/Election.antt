-- ===== src/Raft/Election.antt =====
-- raft/node.go: timers, role changes and elections (resetElectionTimer, becomeFollower,
-- becomeLeader, startElection, HandleRequestVote).
use distributed_key_value_st.Base.{
  ℕ, ◌+◌, true, false, List, [], ◌∷◌, ◌++◌, map, Option, none, some, ltb, leb, ◌==◌, if◌then◌else◌,
  not, ◌&&◌, String, str_eq,
}
use distributed_key_value_st.Raft.Types.{
  Node, follower, candidate, leader, running, stopped, unset, replicate, canvass, PeerMap, peer_set,
  PersistentState, RequestVoteRequest, RequestVoteResponse, Config,
}
use distributed_key_value_st.Raft.Log.{
  last_log_index, last_log_term, quorum, candidate_log_up_to_date, sentinel,
}

-- becomeLeader's loop over the peers, for one of the two maps.
unfoldable pub fill_peers : List (String × String) → ℕ → PeerMap → PeerMap
fill_peers [] v m = m
fill_peers ((p, addr) ∷ ps) v m = fill_peers ps v (peer_set m p v)

-- What the goroutines of one election share: its term, the votes counted so far and the votes
-- needed.
pub record Election : Type 0 where
  pub term : ℕ
  pub votes : ℕ
  pub needed : ℕ

module _ {S : Type 0} where
  -- NewNode.
  unfoldable pub new_node : Config → S → Node S
  new_node cfg storage = record {
    cfg = cfg;
    current_term = 0;
    voted_for = "";
    log = sentinel 0 0 ∷ [];
    last_included_index = 0;
    last_included_term = 0;
    role = follower;
    leader_id = "";
    commit_index = 0;
    recv_snapshot = none;
    next_index = [];
    match_index = [];
    storage = storage;
    election_timer = unset;
    heartbeat_timer = unset;
    apply_ch = [];
    spawned = [];
  }

  unfoldable pub reset_election_timer : Node S → Node S
  reset_election_timer n = record n { election_timer = running }

  unfoldable pub reset_heartbeat_timer : Node S → Node S
  reset_heartbeat_timer n = record n { heartbeat_timer = running }

  unfoldable pub send_heartbeats : Node S → Node S
  send_heartbeats n = record n { spawned = n.spawned ++ map (λ p. replicate p.0) n.cfg.peers }

  unfoldable pub become_leader : Node S → Node S
  unfolding send_heartbeats reset_heartbeat_timer
  become_leader n =
      let next_idx = last_log_index n + 1 in
      let n' : Node S = record n {
        role = leader;
        leader_id = n.cfg.id;
        next_index = fill_peers n.cfg.peers next_idx n.next_index;
        match_index = fill_peers n.cfg.peers 0 n.match_index;
      } in
      let n'' = reset_heartbeat_timer (send_heartbeats n') in
      record n'' { election_timer = stopped }

  -- run: a heartbeat tick.
  unfoldable pub heartbeat_tick : Node S → Node S
  unfolding send_heartbeats reset_heartbeat_timer
  heartbeat_tick n = elim n.role [ leader ↦ reset_heartbeat_timer (send_heartbeats n) | _ ↦ n ]

module _ {S : Type 0} ⦃p : PersistentState S⦄ where
  -- A failed write of the hard state is only logged.
  unfoldable pub save_hard_state : Node S → Node S
  save_hard_state n = record n {
    storage = (p.save_hard_state n.current_term n.voted_for n.storage).0;
  }

  unfoldable pub become_follower : ℕ → Node S → Node S
  unfolding reset_election_timer save_hard_state
  become_follower term n =
      let n' : Node S = record n { role = follower; leader_id = "" } in
      reset_election_timer (
        if ltb n.current_term term
        then save_hard_state (record n' { current_term = term; voted_for = "" })
        else n')

  unfoldable pub vote_request : Node S → RequestVoteRequest
  vote_request n = record {
    term = n.current_term;
    candidate_id = n.cfg.id;
    last_log_index = last_log_index n;
    last_log_term = last_log_term n;
  }

  -- startElection up to the point where the RequestVote goroutines run.
  unfoldable pub start_election : Node S → Election × Node S
  unfolding reset_election_timer save_hard_state vote_request
  start_election n =
      let n' : Node S = record n {
        current_term = n.current_term + 1;
        role = candidate;
        voted_for = n.cfg.id;
      } in
      let n'' = reset_election_timer (save_hard_state n') in
      let e : Election = record { term = n''.current_term; votes = 1; needed = quorum n'' } in
      if leb e.needed e.votes then (e, become_leader n'') else (
        e,
        record n'' {
          spawned = n''.spawned ++ map (λ q. canvass q.0 (vote_request n'')) n''.cfg.peers;
        },
      )

  -- The body of one of startElection's goroutines after its RPC returned.
  unfoldable pub on_vote_response : RequestVoteResponse → Election → Node S → Election × Node S
  on_vote_response resp e n =
      if ltb n.current_term resp.term then (e, become_follower resp.term n) else elim n.role [
        | candidate ↦
            if resp.vote_granted && n.current_term == e.term
            then (let e' : Election = record e { votes = e.votes + 1 } in
                if leb e'.needed e'.votes then (e', become_leader n) else (e', n))
            else (e, n)
        | _ ↦ (e, n)
      ]

  -- run: the election timer fires.
  unfoldable pub election_timeout : Node S → Option (Election × Node S)
  election_timeout n = elim n.role [ leader ↦ none | _ ↦ some (start_election n) ]

  -- HandleRequestVote from its second rule on, when the term has been settled.
  unfoldable pub decide_vote : RequestVoteRequest → Node S → RequestVoteResponse × Node S
  unfolding reset_election_timer save_hard_state
  decide_vote req n =
      let resp : RequestVoteResponse = record { term = n.current_term; vote_granted = false } in
      let already_voted =
        not (str_eq n.voted_for "") && not (str_eq n.voted_for req.candidate_id) in
      if already_voted
      then (resp, n)
      else if not (candidate_log_up_to_date n req.last_log_index req.last_log_term)
      then (resp, n)
      else (
        record resp { vote_granted = true },
        reset_election_timer (save_hard_state (record n { voted_for = req.candidate_id })),
      )

  unfoldable pub handle_request_vote : RequestVoteRequest → Node S → RequestVoteResponse × Node S
  handle_request_vote req n =
      if ltb req.term n.current_term
      then (record { term = n.current_term; vote_granted = false }, n)
      else if ltb n.current_term req.term
      then decide_vote req (become_follower req.term n)
      else decide_vote req n
