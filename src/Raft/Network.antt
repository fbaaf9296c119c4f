-- ===== src/Raft/Network.antt =====
-- raft/memtransport.go: a cluster in memory, whose RPCs are calls of the handlers.
pub mod Partition
use distributed_key_value_st.Raft.Election.{handle_request_vote}
use distributed_key_value_st.Raft.Append.{handle_append_entries}
use distributed_key_value_st.Raft.Snapshot.{handle_install_snapshot}
use distributed_key_value_st.Base.{
  false, some, str_eq, ◌||◌, none, if◌then◌else◌, Bool, ◌∷◌, List, Option, [], String,
}
use distributed_key_value_st.Raft.Types.{
  InstallSnapshotResponse, AppendEntriesResponse, RequestVoteResponse, InstallSnapshotRequest,
  AppendEntriesRequest, RequestVoteRequest, Node, PersistentState,
}

-- `isolated` has the nodes that cannot send or receive messages.
pub record Network (S : Type 0) : Type 0 where
  pub nodes : List (String × Node S)
  pub isolated : List String

unfoldable pub is_isolated : String → List String → Bool
is_isolated id [] = false
is_isolated id (x ∷ xs) = str_eq x id || is_isolated id xs

unfoldable pub remove_id : String → List String → List String
remove_id id [] = []
remove_id id (x ∷ xs) = let rest = remove_id id xs in if str_eq x id then rest else x ∷ rest

module _ {S : Type 0} where
  unfoldable pub node_of : String → List (String × Node S) → Option (Node S)
  node_of id [] = none
  node_of id ((x, n) ∷ ns) = let rest = node_of id ns in if str_eq x id then some n else rest

  unfoldable pub set_node : String → Node S → List (String × Node S) → List (String × Node S)
  set_node id n [] = (id, n) ∷ []
  set_node id n ((x, m) ∷ ns) =
      let rest = set_node id n ns in if str_eq x id then (x, n) ∷ ns else (x, m) ∷ rest

  unfoldable pub new_network : Network S
  new_network = record { nodes = []; isolated = [] }

  unfoldable pub add : String → Node S → Network S → Network S
  add id n net = record net { nodes = set_node id n net.nodes }

  unfoldable pub disconnect : String → Network S → Network S
  disconnect id net = record net { isolated = id ∷ net.isolated }

  unfoldable pub reconnect : String → Network S → Network S
  reconnect id net = record net { isolated = remove_id id net.isolated }

  -- The test that the three RPCs share: the peer's node, unless one of the two is isolated.
  unfoldable pub reachable : String → String → Network S → Option (Node S)
  reachable sender peer net =
      if is_isolated sender net.isolated || is_isolated peer net.isolated
      then none
      else node_of peer net.nodes

module _ {S : Type 0} ⦃p : PersistentState S⦄ where
  -- The three RPCs; `none` is an error, which leaves everything as it is.
  unfoldable pub request_vote :
      String → String → RequestVoteRequest → Network S → Option (RequestVoteResponse × Network S)
  request_vote sender peer req net = elim (reachable sender peer net) [
    | none ↦ none
    | some n ↦
        let (resp, n') = handle_request_vote req n in
        some (resp, record net { nodes = set_node peer n' net.nodes })
  ]

  unfoldable pub append_entries :
      String
      → String
      → AppendEntriesRequest
      → Network S
      → Option (AppendEntriesResponse × Network S)
  append_entries sender peer req net = elim (reachable sender peer net) [
    | none ↦ none
    | some n ↦
        let (resp, n') = handle_append_entries req n in
        some (resp, record net { nodes = set_node peer n' net.nodes })
  ]

  unfoldable pub install_snapshot :
      String
      → String
      → InstallSnapshotRequest
      → Network S
      → Option (InstallSnapshotResponse × Network S)
  install_snapshot sender peer req net = elim (reachable sender peer net) [
    | none ↦ none
    | some n ↦
        let (resp, n') = handle_install_snapshot req n in
        some (resp, record net { nodes = set_node peer n' net.nodes })
  ]
