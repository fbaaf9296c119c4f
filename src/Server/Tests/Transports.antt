-- ===== src/Server/Tests/Transports.antt =====
-- The theorem about the pool of connections at three RPCs.
use distributed_key_value_st.Raft.Types.{AppendEntriesRequest, RequestVoteRequest}
use distributed_key_value_st.Server.Transport.Pool.{
  request_votes, Calls, append_logs, get_client_once, use_all, Use,
}
use distributed_key_value_st.Server.Transport.{
  request_vote, close, map_set, new_grpc_transport, map_get, GrpcTransport, get_client,
}
use distributed_key_value_st.Base.{
  true, refl, some, str_eq, [], if◌then◌else◌, none, ◌≡◌, ◌∷◌, ◌+◌, Option, List, String, ℕ,
}
use mathlib.Core.List.{Memᴰ}

abbrev addresses : List (String × String)
addresses = ("n2", "host2") ∷ ("n3", "host3") ∷ []

-- A connection is a number, and so is a client.
abbrev client_on : ℕ → ℕ
client_on c = c + 100

abbrev refused : String → Option ℕ
refused addr = none

abbrev accepted : String → Option ℕ
accepted addr = if str_eq addr "host2" then some 7 else some 8

abbrev ask : RequestVoteRequest
ask = record { term = 1; candidate_id = "n1"; last_log_index = 0; last_log_term = 0 }

abbrev send : AppendEntriesRequest
send = record {
  term = 1;
  leader_id = "n1";
  prev_log_index = 0;
  prev_log_term = 0;
  entries = [];
  leader_commit = 0;
}

-- The dial of n2 fails at first; later a call of n2 fails, and n3 grants its vote.
abbrev before : List (Use ℕ ℕ)
before = request_votes "n2" refused (λ k req. none) ask ∷ []

abbrev after : List (Use ℕ ℕ)
after =
    append_logs "n2" accepted (λ k req. none) send
    ∷ request_votes "n3" accepted (λ k req. some (record { term = 1; vote_granted = true })) ask
    ∷ []

abbrev pool : GrpcTransport ℕ ℕ
pool = use_all client_on before (new_grpc_transport addresses)

abbrev pool_after : GrpcTransport ℕ ℕ
pool_after = use_all client_on after (get_client client_on accepted "n2" pool).1

first_client : (get_client client_on accepted "n2" pool).0 ≡ some 107
unfolding get_client map_get map_set new_grpc_transport request_vote
first_client = refl

get_client_once_example :
    Calls client_on "n2" 107 pool_after
    × ((c : ℕ) × (client_on c ≡ 107) × Memᴰ c (close pool_after).closed)
get_client_once_example =
    get_client_once client_on addresses before after accepted "n2" 107 first_client
