-- ===== src/Server/Transport.antt =====
-- server/transport.go: the transport between servers, and its pool of connections. A dial, the making
-- of a client on a connection and a call of a client are the parameters that gRPC stands for.
pub mod Maps
pub mod Connections
pub mod Pool
use distributed_key_value_st.Raft.Types.{
  AppendEntriesResponse, InstallSnapshotResponse, RequestVoteResponse, RequestVoteRequest,
  InstallSnapshotRequest, AppendEntriesRequest,
}
use distributed_key_value_st.Base.{
  str_eq, some, none, if◌then◌else◌, Option, [], ◌∷◌, ◌++◌, map, List, String,
}

-- A map with string keys, as an association list.
module _ {A : Type 0} where
  unfoldable pub map_get : String → List (String × A) → Option A
  map_get k [] = none
  map_get k ((j, a) ∷ m) = let rest = map_get k m in if str_eq j k then some a else rest

  unfoldable pub map_set : String → A → List (String × A) → List (String × A)
  map_set k a [] = (k, a) ∷ []
  map_set k a ((j, b) ∷ m) =
      let rest = map_set k a m in if str_eq j k then (j, a) ∷ m else (j, b) ∷ rest

-- `C` is a connection, `K` a client on one. `closed` has the connections that Close has closed.
pub record GrpcTransport (C K : Type 0) : Type 0 where
  pub peers : List (String × String)
  pub conns : List (String × C)
  pub clients : List (String × K)
  pub closed : List C

module _ {C K : Type 0} where
  -- NewGRPCTransport.
  unfoldable pub new_grpc_transport : List (String × String) → GrpcTransport C K
  new_grpc_transport peers = record { peers = peers; conns = []; clients = []; closed = [] }

  unfoldable pub close : GrpcTransport C K → GrpcTransport C K
  close t = record t { closed = map (λ e. e.1) t.conns ++ t.closed }

module _ {C K : Type 0} (new_client : C → K) where
  -- getClient; `dial` is what a dial of an address gives at this call, and `none` is an error.
  unfoldable pub get_client :
      (String → Option C) → String → GrpcTransport C K → Option K × GrpcTransport C K
  get_client dial peer t = elim (map_get peer t.clients) [
    | some client ↦ (some client, t)
    | none ↦ elim (map_get peer t.peers) [
      | none ↦ (none, t)
      | some addr ↦ elim (dial addr) [
        | none ↦ (none, t)
        | some conn ↦ (
          some (new_client conn),
          record t {
            conns = map_set peer conn t.conns;
            clients = map_set peer (new_client conn) t.clients;
          },
        )
      ]
    ]
  ]

  -- The three RPCs; `call` is what the client's call of that name returns.
  unfoldable pub request_vote :
      (String → Option C)
      → (K → RequestVoteRequest → Option RequestVoteResponse)
      → String
      → RequestVoteRequest
      → GrpcTransport C K
      → Option RequestVoteResponse × GrpcTransport C K
  request_vote dial call peer req t =
      let (client, t') = get_client dial peer t in
      (elim client [ none ↦ none | some k ↦ call k req ], t')

  unfoldable pub append_entries :
      (String → Option C)
      → (K → AppendEntriesRequest → Option AppendEntriesResponse)
      → String
      → AppendEntriesRequest
      → GrpcTransport C K
      → Option AppendEntriesResponse × GrpcTransport C K
  append_entries dial call peer req t =
      let (client, t') = get_client dial peer t in
      (elim client [ none ↦ none | some k ↦ call k req ], t')

  unfoldable pub install_snapshot :
      (String → Option C)
      → (K → InstallSnapshotRequest → Option InstallSnapshotResponse)
      → String
      → InstallSnapshotRequest
      → GrpcTransport C K
      → Option InstallSnapshotResponse × GrpcTransport C K
  install_snapshot dial call peer req t =
      let (client, t') = get_client dial peer t in
      (elim client [ none ↦ none | some k ↦ call k req ], t')
