-- ===== src/Server/Transport/Connections.antt =====
-- server/transport.go: getClient, and the connection that each client stands on.
use distributed_key_value_st.Server.Transport.Maps.{map_get-map_set, map_get-map_set_other}
use distributed_key_value_st.Base.{
  sym, eq_iff, ap, Option-cases, str_eq, Bool-cases, ◌∙◌, ◌⊎◌, refl, some, none, inr, List, inl,
  ◌≡◌, Option, String,
}
use distributed_key_value_st.Server.Transport.{
  map_get, map_set, get_client, new_grpc_transport, GrpcTransport,
}

module _ {C K : Type 0} (new_client : C → K) where
  -- Each client stands on the connection that is kept for its peer.
  abbrev pub Wired : GrpcTransport C K → Type 0
  Wired t =
      (peer : String)
      → map_get peer t.clients
        ≡ elim (map_get peer t.conns) [ none ↦ none | some c ↦ some (new_client c) ]

  pub new_grpc_transport-Wired : (peers : List (String × String)) → Wired (new_grpc_transport peers)
  unfolding new_grpc_transport map_get
  new_grpc_transport-Wired peers peer = refl

  connected-Wired :
      (peer other : String) (c : C) (t : GrpcTransport C K)
      → Wired t
      → map_get other (map_set peer (new_client c) t.clients)
        ≡ elim (map_get other (map_set peer c t.conns)) [
          | none ↦ none
          | some d ↦ some (new_client d)
        ]
  connected-Wired peer other c t w = elim (Bool-cases (str_eq peer other)) [
    | inl e ↦
        let same : peer ≡ other = (eq_iff peer other).0 e in
        rw⁻¹ same
          (rw (map_get-map_set peer (new_client c) t.clients, map_get-map_set peer c t.conns) refl)
    | inr e ↦
        rw
          (
            map_get-map_set_other peer other (new_client c) t.clients e,
            map_get-map_set_other peer other c t.conns e,
          )
          (w other)
  ]

  -- What the pool becomes when a connection is made.
  abbrev connected : String → C → GrpcTransport C K → GrpcTransport C K
  connected peer c t = record t {
    conns = map_set peer c t.conns;
    clients = map_set peer (new_client c) t.clients;
  }

  -- The client is in the pool, or none is had, or one is made on a new connection.
  get_client-cases :
      (dial : String → Option C) (peer : String) (t : GrpcTransport C K)
      → ((k : K) × (map_get peer t.clients ≡ some k)
          × (get_client new_client dial peer t ≡ (some k, t)))
        ⊎ ((map_get peer t.clients ≡ none)
            × ((get_client new_client dial peer t ≡ (none, t))
                ⊎ ((c : C) × (get_client new_client dial peer t
                      ≡ (some (new_client c), connected peer c t)))))
  unfolding get_client
  get_client-cases dial peer t = elim (Option-cases (map_get peer t.clients)) [
    | inr (k, e) ↦ inl (k, e, rw (e, get_client) refl)
    | inl e ↦ inr (
      e,
      elim (Option-cases (map_get peer t.peers)) [
        | inl p ↦ inl (rw (e, p, get_client) refl)
        | inr (addr, p) ↦ elim (Option-cases (dial addr)) [
          | inl d ↦ inl (rw (e, p, d, get_client) refl)
          | inr (c, d) ↦ inr (c, rw (e, p, d, get_client) refl)
        ]
      ],
    )
  ]

  pub get_client-Wired :
      (dial : String → Option C) (peer : String) (t : GrpcTransport C K)
      → Wired t
      → Wired (get_client new_client dial peer t).1
  get_client-Wired dial peer t w = elim (get_client-cases dial peer t) [
    | inl (k, e, g) ↦ rw g w
    | inr (e, inl g) ↦ rw g w
    | inr (e, inr (c, g)) ↦ rw g (λ other. connected-Wired peer other c t w)
  ]

  -- A client that the pool has stays, whoever else is called.
  pub get_client_keeps :
      (dial : String → Option C) (peer other : String) (k : K) (t : GrpcTransport C K)
      → map_get other t.clients ≡ some k
      → map_get other (get_client new_client dial peer t).1.clients ≡ some k
  get_client_keeps dial peer other k t h = elim (get_client-cases dial peer t) [
    | inl (l, e, g) ↦ rw g h
    | inr (e, inl g) ↦ rw g h
    | inr (e, inr (c, g)) ↦ elim (Bool-cases (str_eq peer other)) [
      | inl s ↦
          let same : peer ≡ other = (eq_iff peer other).0 s in
          absurd (cc (h, e, ap (λ q. map_get q t.clients) same))
      | inr s ↦ rw (g, map_get-map_set_other peer other (new_client c) t.clients s) h
    ]
  ]

  -- A client that was handed out is in the pool.
  pub get_client_stores :
      (dial : String → Option C) (peer : String) (k : K) (t : GrpcTransport C K)
      → (get_client new_client dial peer t).0 ≡ some k
      → map_get peer (get_client new_client dial peer t).1.clients ≡ some k
  get_client_stores dial peer k t h = elim (get_client-cases dial peer t) [
    | inl (l, e, g) ↦ rw g (e ∙ (ap (λ r. r.0) (sym g) ∙ h))
    | inr (e, inl g) ↦ absurd (cc (ap (λ r. r.0) (sym g) ∙ h))
    | inr (e, inr (c, g)) ↦
        rw g (map_get-map_set peer (new_client c) t.clients ∙ (ap (λ r. r.0) (sym g) ∙ h))
  ]
