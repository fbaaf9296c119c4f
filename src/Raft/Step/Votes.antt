-- ===== src/Raft/Step/Votes.antt =====
-- Votes over any sequence of steps, crashes and restarts included.
use distributed_key_value_st.Base.{◌≤◌, ◌≡◌, ◌≢◌, refl, sym, ◌∙◌, true, arith}
use distributed_key_value_st.Raft.Types.{Node, PersistentState, RequestVoteRequest}
use distributed_key_value_st.Raft.Election.{handle_request_vote, decide_vote, become_follower}
use distributed_key_value_st.Raft.MemState.{mem_state}
use distributed_key_value_st.Raft.Step.{
  next, Step, Reach, vote_requested, entries_sent, chunk_sent, timed_out, vote_answered,
  entries_answered, chunk_answered, heartbeat, proposed, compacted, restarted, here,
}
use distributed_key_value_st.Raft.Step.Kept.{
  KeepsHardState, HardSynced, Kept, Kept-refl, Kept-trans,
}
use distributed_key_value_st.Raft.Step.Handlers.{
  handle_request_vote-Kept, handle_append_entries-Kept, handle_install_snapshot-Kept,
  election_timeout-Kept, on_vote_response-Kept, on_append_response-Kept, on_snapshot_response-Kept,
  heartbeat_tick-Kept, propose-Kept, compact_log-Kept, restart-Kept,
}

-- The store in memory is such a store.
pub mem_state-KeepsHardState : KeepsHardState mem_state
mem_state-KeepsHardState = record {
  saved = λ t v s. refl;
  appended = λ es s. refl;
  cut_suffix = λ k s. refl;
  cut_prefix = λ k s. refl;
  snapshotted = λ b i t s. refl;
}

module _ {S : Type 0} ⦃p : PersistentState S⦄ (laws : KeepsHardState p) where
  Step-Kept : {n m : Node S} → HardSynced n → Step n m → Kept n m
  Step-Kept h (vote_requested req n) = handle_request_vote-Kept laws req n
  Step-Kept h (entries_sent req n) = handle_append_entries-Kept laws req n
  Step-Kept h (chunk_sent req n) = handle_install_snapshot-Kept laws req n
  Step-Kept h (timed_out n e m t) = election_timeout-Kept laws n m e t
  Step-Kept h (vote_answered resp e n) = on_vote_response-Kept laws resp e n
  Step-Kept h (entries_answered peer req resp n) = on_append_response-Kept laws peer req resp n
  Step-Kept h (chunk_answered peer req resp n) = on_snapshot_response-Kept laws peer req resp n
  Step-Kept h (heartbeat n) = heartbeat_tick-Kept laws n
  Step-Kept h (proposed payload n) = propose-Kept laws payload n
  Step-Kept h (compacted blob index term n) = compact_log-Kept laws blob index term n
  Step-Kept h (restarted n m e) = restart-Kept laws n m h e

  pub Reach-Kept : {n m : Node S} → HardSynced n → Reach n m → Kept n m
  Reach-Kept {n} h here = Kept-refl n
  Reach-Kept h (next r st) =
      let before = Reach-Kept h r in Kept-trans before (Step-Kept (before.stored h) st)

  -- Whatever handlers run and however often the node crashes and restarts, its term never falls,
  -- and its term and vote stay the ones that the store would give back. The store gives back what
  -- was saved last, and held the node's term and vote at the start.
  pub Reach-HardSynced :
      (n m : Node S) → HardSynced n → Reach n m → (n.current_term ≤ m.current_term) × HardSynced m
  Reach-HardSynced n m h r = ((Reach-Kept h r).term, (Reach-Kept h r).stored h)

  -- A granted vote, in the response and in the node.
  pub granted :
      (req : RequestVoteRequest) (n : Node S)
      → (handle_request_vote req n).0.vote_granted ≡ true
      → (n.current_term ≤ req.term)
        × ((handle_request_vote req n).1.current_term ≡ req.term)
        × ((handle_request_vote req n).1.voted_for ≡ req.candidate_id)
  unfolding handle_request_vote decide_vote become_follower
  granted req n h = ground arith

  -- A vote is final: a node that has voted in its term, for itself or for another, grants no vote
  -- of that term to anybody else, whatever handlers run and crashes happen in between. The store gives
  -- back the hard state that was saved last, and held the node's term and vote at the start.
  pub vote_is_final :
      (n m : Node S) (req : RequestVoteRequest)
      → HardSynced n
      → n.voted_for ≢ ""
      → Reach n m
      → (handle_request_vote req m).0.vote_granted ≡ true
      → req.term ≡ n.current_term
      → req.candidate_id ≡ n.voted_for
  vote_is_final n m req h named r g same =
      let (_, t, v) = granted req m g in
      let k = Kept-trans (Reach-Kept h r) (handle_request_vote-Kept laws req m) in
      sym v ∙ k.vote (sym (t ∙ same)) named
