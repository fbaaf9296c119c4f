-- ===== src/Server/Transport/Pool.antt =====
-- server/transport.go: which client an RPC calls, and what Close closes.
use distributed_key_value_st.Server.Transport.Maps.{map_get-Mem}
use distributed_key_value_st.Raft.Types.{
  InstallSnapshotResponse, InstallSnapshotRequest, AppendEntriesResponse, AppendEntriesRequest,
  RequestVoteResponse, RequestVoteRequest,
}
use distributed_key_value_st.Server.Transport.Connections.{
  get_client_stores, get_client_keeps, new_grpc_transport-Wired, get_client-Wired, Wired,
}
use distributed_key_value_st.Base.{
  [], ◌∙◌, inr, inl, Option-cases, some, ◌≡◌, Option, ◌∷◌, List, String,
}
use distributed_key_value_st.Server.Transport.{
  new_grpc_transport, install_snapshot, append_entries, map_get, get_client, close, GrpcTransport,
  request_vote,
}
use mathlib.Core.List.{Memᴰ}
use mathlib.Core.List.Memᴰ
use distributed_key_value_st.Base.{refl}

-- An RPC of the transport: the peer, what a dial gives at that time, what the client's call returns,
-- and the request.
pub data Use (C K : Type 0) : Type 0 where
  request_votes :
      String
      → (String → Option C)
      → (K → RequestVoteRequest → Option RequestVoteResponse)
      → RequestVoteRequest
      → Use C K
  append_logs :
      String
      → (String → Option C)
      → (K → AppendEntriesRequest → Option AppendEntriesResponse)
      → AppendEntriesRequest
      → Use C K
  install_snapshots :
      String
      → (String → Option C)
      → (K → InstallSnapshotRequest → Option InstallSnapshotResponse)
      → InstallSnapshotRequest
      → Use C K

module _ {C K : Type 0} (new_client : C → K) where
  -- What an RPC leaves of the transport; it may fail at the dial or at the call.
  abbrev pub use_once : Use C K → GrpcTransport C K → GrpcTransport C K
  use_once (request_votes peer dial call req) t = (request_vote new_client dial call peer req t).1
  use_once (append_logs peer dial call req) t = (append_entries new_client dial call peer req t).1
  use_once (install_snapshots peer dial call req) t =
      (install_snapshot new_client dial call peer req t).1

  abbrev pub use_all : List (Use C K) → GrpcTransport C K → GrpcTransport C K
  use_all [] t = t
  use_all (u ∷ us) t = use_all us (use_once u t)

  use_once-Wired :
      (u : Use C K) (t : GrpcTransport C K) → Wired new_client t → Wired new_client (use_once u t)
  unfolding request_vote append_entries install_snapshot
  use_once-Wired (request_votes peer dial call req) t w = get_client-Wired new_client dial peer t w
  use_once-Wired (append_logs peer dial call req) t w = get_client-Wired new_client dial peer t w
  use_once-Wired (install_snapshots peer dial call req) t w =
      get_client-Wired new_client dial peer t w

  use_once_keeps :
      (u : Use C K) (other : String) (k : K) (t : GrpcTransport C K)
      → map_get other t.clients ≡ some k
      → map_get other (use_once u t).clients ≡ some k
  unfolding request_vote append_entries install_snapshot
  use_once_keeps (request_votes peer dial call req) other k t h =
      get_client_keeps new_client dial peer other k t h
  use_once_keeps (append_logs peer dial call req) other k t h =
      get_client_keeps new_client dial peer other k t h
  use_once_keeps (install_snapshots peer dial call req) other k t h =
      get_client_keeps new_client dial peer other k t h

  use_all_keeps :
      (uses : List (Use C K)) (peer : String) (k : K) (t : GrpcTransport C K)
      → map_get peer t.clients ≡ some k
      → map_get peer (use_all uses t).clients ≡ some k
  use_all_keeps [] peer k t h = h
  use_all_keeps (u ∷ us) peer k t h =
      use_all_keeps us peer k (use_once u t) (use_once_keeps u peer k t h)

  use_all-Wired :
      (uses : List (Use C K)) (t : GrpcTransport C K)
      → Wired new_client t
      → Wired new_client (use_all uses t)
  use_all-Wired [] t w = w
  use_all-Wired (u ∷ us) t w = use_all-Wired us (use_once u t) (use_once-Wired u t w)

  -- An RPC to a peer whose client is in the pool is one call of that client, and no dial.
  abbrev pub Calls : String → K → GrpcTransport C K → Type 0
  Calls peer k t =
      ((dial : String → Option C) (call : K → RequestVoteRequest → Option RequestVoteResponse)
          (req : RequestVoteRequest)
        → request_vote new_client dial call peer req t ≡ (call k req, t))
      × ((dial : String → Option C) (call : K → AppendEntriesRequest → Option AppendEntriesResponse)
            (req : AppendEntriesRequest)
          → append_entries new_client dial call peer req t ≡ (call k req, t))
      × ((dial : String → Option C)
            (call : K → InstallSnapshotRequest → Option InstallSnapshotResponse)
            (req : InstallSnapshotRequest)
          → install_snapshot new_client dial call peer req t ≡ (call k req, t))

  keeps :
      (dial : String → Option C) (peer : String) (k : K) (t : GrpcTransport C K)
      → map_get peer t.clients ≡ some k
      → get_client new_client dial peer t ≡ (some k, t)
  unfolding get_client
  keeps dial peer k t h = rw (h, get_client) refl

  has_client-Calls :
      (peer : String) (k : K) (t : GrpcTransport C K)
      → map_get peer t.clients ≡ some k
      → Calls peer k t
  unfolding request_vote append_entries install_snapshot
  has_client-Calls peer k t h = (
    λ dial call req. rw (keeps dial peer k t h, request_vote) refl,
    λ dial call req. rw (keeps dial peer k t h, append_entries) refl,
    λ dial call req. rw (keeps dial peer k t h, install_snapshot) refl,
  )

  -- Close reaches the connection of every client in the pool.
  closes :
      (peer : String) (k : K) (t : GrpcTransport C K)
      → Wired new_client t
      → map_get peer t.clients ≡ some k
      → (c : C) × (new_client c ≡ k) × Memᴰ c (close t).closed
  unfolding close
  closes peer k t w h = elim (Option-cases (map_get peer t.conns)) [
    | inl e ↦ absurd (cc (w peer, h, e))
    | inr (c, e) ↦
        let made : map_get peer t.clients ≡ some (new_client c) = w peer ∙ rw e refl in
        (c, cc (made, h), Memᴰ.append_left _ (map_get-Mem peer c t.conns e))
  ]

  -- A transport keeps the client that it first gets for a peer: every later RPC to that peer, of any
  -- of the three kinds, is one call of this client and no dial, whatever RPCs come in between and
  -- whether they succeed or fail, and Close closes the connection that the client stands on. The
  -- transport may have made any RPCs before.
  pub get_client_once :
      (peers : List (String × String)) (earlier later : List (Use C K)) (dial : String → Option C)
      (peer : String) (k : K)
      → (get_client new_client dial peer (use_all earlier (new_grpc_transport peers))).0 ≡ some k
      → let t = use_all earlier (new_grpc_transport peers) in
        let t' = use_all later (get_client new_client dial peer t).1 in
        Calls peer k t' × ((c : C) × (new_client c ≡ k) × Memᴰ c (close t').closed)
  get_client_once peers earlier later dial peer k h =
      let t = use_all earlier (new_grpc_transport peers) in
      let w = use_all-Wired earlier _ (new_grpc_transport-Wired new_client peers) in
      let got = (get_client new_client dial peer t).1 in
      let kept = use_all_keeps later peer k got (get_client_stores new_client dial peer k t h) in
      let w' = use_all-Wired later got (get_client-Wired new_client dial peer t w) in
      (has_client-Calls peer k _ kept, closes peer k _ w' kept)
