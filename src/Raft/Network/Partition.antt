-- ===== src/Raft/Network/Partition.antt =====
-- raft/memtransport.go: what a partition keeps apart.
use distributed_key_value_st.Raft.Election.{handle_request_vote}
use distributed_key_value_st.Raft.Network.{
  request_vote, Network, reconnect, remove_id, disconnect, set_node, node_of, reachable,
  is_isolated,
}
use distributed_key_value_st.Base.{
  eq_refl, refl, eq_iff, [], arith, ◌∷◌, some, false, if◌then◌else◌, none, str_eq, ◌≡◌, List,
  String,
}
use distributed_key_value_st.Raft.Types.{RequestVoteRequest, Node, PersistentState}

is_isolated-remove_id : (id : String) (xs : List String) → is_isolated id (remove_id id xs) ≡ false
unfolding is_isolated remove_id
is_isolated-remove_id id [] = refl
is_isolated-remove_id id (x ∷ xs) = ground (arith, is_isolated-remove_id id xs)

is_isolated-remove_other :
    (id other : String) (xs : List String)
    → is_isolated other xs ≡ false
    → is_isolated other (remove_id id xs) ≡ false
unfolding is_isolated remove_id
is_isolated-remove_other id other [] h = refl
is_isolated-remove_other id other (x ∷ xs) h =
    ground (arith, h, is_isolated-remove_other id other xs)

module _ {S : Type 0} where
  node_of-set_node :
      (id other : String) (n : Node S) (ns : List (String × Node S))
      → node_of other (set_node id n ns) ≡ (if str_eq id other then some n else node_of other ns)
  unfolding node_of set_node
  node_of-set_node id other n [] = refl
  node_of-set_node id other n ((x, m) ∷ ns) =
      ground (arith, eq_iff id other, eq_iff x id, eq_iff x other, node_of-set_node id other n ns)

  -- A node that is disconnected reaches no other and is reached by none, and after it is reconnected
  -- each node that is not isolated itself reaches it again, as it is registered.
  pub disconnect_cuts :
      (id other : String) (net : Network S)
      → is_isolated other net.isolated ≡ false
      → (reachable id other (disconnect id net) ≡ none)
        × (reachable other id (disconnect id net) ≡ none)
        × (reachable other id (reconnect id (disconnect id net)) ≡ node_of id net.nodes)
  unfolding reachable disconnect reconnect is_isolated remove_id
  disconnect_cuts id other net h = (
    ground (arith, eq_refl id),
    ground (arith, eq_refl id),
    rw
        (
          eq_refl id,
          is_isolated-remove_id id net.isolated,
          is_isolated-remove_other id other net.isolated h,
        )
        refl,
  )

module _ {S : Type 0} ⦃p : PersistentState S⦄ where
  -- A RequestVote call that returns a response is one run of the peer's handler: the response is the
  -- handler's, the peer becomes what the handler makes of it, and every other node stays as it is.
  -- The peer is registered, and neither of the two is isolated.
  pub request_vote_delivers :
      (sender peer other : String) (req : RequestVoteRequest) (net : Network S) (n : Node S)
      → reachable sender peer net ≡ some n
      → (after : Network S) × (request_vote sender peer req net
          ≡ some ((handle_request_vote req n).0, after))
        × (node_of other after.nodes ≡ (
            if str_eq peer other
            then some (handle_request_vote req n).1
            else node_of other net.nodes))
  unfolding request_vote
  request_vote_delivers sender peer other req net n h = (
    record net { nodes = set_node peer (handle_request_vote req n).1 net.nodes },
    rw (h, request_vote) refl,
    node_of-set_node peer other (handle_request_vote req n).1 net.nodes,
  )
