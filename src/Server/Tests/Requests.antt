-- ===== src/Server/Tests/Requests.antt =====
-- The theorems about client requests at a node that leads a cluster of one, and at one that knows no
-- leader.
use mathlib.Core.List.Memᴰ
use mathlib.Core.List.{Memᴰ}
use distributed_key_value_st.Base.{
  inr, sym, ap, String, true, str_eq, inl, ◌≢◌, ℕ, if◌then◌else◌, none, some, ◌++◌, ◌∷◌, List, [],
  Option, false, arith, Bytes, refl, ◌≡◌,
}
use distributed_key_value_st.Raft.Types.{
  AppendEntriesRequest, Node, leader, follower, running, stopped, command,
}
use distributed_key_value_st.Raft.Log.{sentinel}
use distributed_key_value_st.Raft.Commit.{own_entry}
use distributed_key_value_st.Raft.Log.{last_log_index}
use distributed_key_value_st.Raft.Commit.Alone.{Alone}
use distributed_key_value_st.Raft.MemState.{MemState, mem_state, new_mem_state}
use distributed_key_value_st.Storage.Memtable.{MemEntry}
use distributed_key_value_st.Storage.Tests.{listed, listed-TableLaws, engine, engine-WellFormed}
use distributed_key_value_st.Server.Watch.{new_change_broadcaster}
use distributed_key_value_st.Server.StateMachine.{Command, StateMachine, PendingWrite, ok, dispatch}
use distributed_key_value_st.Client.{GetResponse, do_get, do_write}
use distributed_key_value_st.Server.KvServer.{
  on_append_entries, handle_put, KvServer, Reply, waiting, replied, handle_get, handle_write,
  put_command,
}
use distributed_key_value_st.Server.KvServer.Redirect.{
  HasAddress, answer, follower_redirects, unknown_leader_reads_as_missing,
}
use distributed_key_value_st.Server.KvServer.Alone.{put_then_get-Alone}

marshal : Command → Bytes
marshal cmd = cmd.key ++ cmd.value

unmarshal : Bytes → Option Command
unfolding put_command
unmarshal (k ∷ v ∷ []) = some (put_command (k ∷ []) (v ∷ []))
unmarshal _ = none

abbrev lone : Node MemState
lone = record {
  cfg = record { id = "n1"; peers = [] };
  current_term = 1;
  voted_for = "n1";
  log = sentinel 0 0 ∷ [];
  last_included_index = 0;
  last_included_term = 0;
  role = leader;
  leader_id = "n1";
  commit_index = 0;
  recv_snapshot = none;
  next_index = [];
  match_index = [];
  storage = new_mem_state;
  election_timer = stopped;
  heartbeat_timer = running;
  apply_ch = [];
  spawned = [];
}

lone-Alone : Alone lone
unfolding last_log_index
lone-Alone = record { leads = refl; no_peers = refl; has_sentinel = omega arith; committed = refl }

abbrev server : KvServer (List MemEntry) MemState
server = record {
  cfg = record { node_id = "n1"; listen_addr = "host1"; peers = [] };
  node = lone;
  sm = record {
    engine = engine;
    pending = [];
    last_applied = 0;
    last_seq = [];
    snapshot_interval = 0;
    broadcaster = new_change_broadcaster;
    delivered = [];
  };
}

decoded : unmarshal (marshal (put_command (5 ∷ []) (6 ∷ []))) ≡ some (put_command (5 ∷ []) (6 ∷ []))
unfolding marshal unmarshal put_command
decoded = refl

put_then_get-Alone_example :
    let r : Reply × KvServer (List MemEntry) MemState =
      handle_put marshal (5 ∷ []) (6 ∷ []) server in
    let e = own_entry (marshal (put_command (5 ∷ []) (6 ∷ []))) lone in
    let after : StateMachine (List MemEntry) × Node MemState =
      dispatch unmarshal (command e) (r.1.sm, r.1.node) in
    let s' : KvServer (List MemEntry) MemState = record r.1 { sm = after.0; node = after.1 } in
    (pw : PendingWrite) × (r.0 ≡ waiting pw)
    × (r.1.node.apply_ch ≡ command e ∷ [])
    × (after.0.delivered ≡ (pw, ok) ∷ [])
    × (handle_get (5 ∷ []) s' ≡ record { value = some (6 ∷ []); leader_hint = "" })
    × Alone s'.node
put_then_get-Alone_example =
    put_then_get-Alone listed-TableLaws marshal unmarshal (5 ∷ []) (6 ∷ []) server lone-Alone
      decoded (omega arith) refl refl engine-WellFormed

-- The same node before it has heard of a leader, with two peers.
abbrev leaderless : KvServer (List MemEntry) MemState
leaderless = record server {
  cfg = record {
    node_id = "n1";
    listen_addr = "host1";
    peers = ("n2", "host2") ∷ ("n3", "host3") ∷ [];
  };
  node = record lone { role = follower; leader_id = "" };
}

-- The first heartbeat of n3, the leader of term 2.
abbrev heartbeat : AppendEntriesRequest
heartbeat = record {
  term = 2;
  leader_id = "n3";
  prev_log_index = 0;
  prev_log_term = 0;
  entries = [];
  leader_commit = 0;
}

n3-HasAddress : HasAddress "n3" "host3" leaderless.cfg.peers
n3-HasAddress = (
  Memᴰ.tail (Memᴰ.head refl),
  λ a m. elim (Memᴰ.cases_cons m) [
    | inl e ↦ let same : false ≡ true = ap (λ x. str_eq x.0 "n2") e in absurd (cc same)
    | inr k ↦ ap (λ x. x.1) (Memᴰ.eq_of_singleton k)
  ],
)

n3_named : heartbeat.leader_id ≢ ""
n3_named e = let same : false ≡ true = ap (λ s. str_eq s "n3") (sym e) in absurd (cc same)

n3_other : heartbeat.leader_id ≢ leaderless.cfg.node_id
n3_other e = let same : false ≡ true = ap (λ s. str_eq s "n3") (sym e) in absurd (cc same)

follower_redirects_example :
    let s' : KvServer (List MemEntry) MemState = (on_append_entries heartbeat leaderless).1 in
    (handle_get (97 ∷ []) s' ≡ record { value = none; leader_hint = "host3" })
    × (handle_write marshal (put_command (5 ∷ []) (6 ∷ [])) s'
        ≡ (replied (record { success = false; leader_hint = "host3" }), s'))
follower_redirects_example =
    follower_redirects marshal (put_command (5 ∷ []) (6 ∷ [])) (97 ∷ []) "host3" heartbeat
      leaderless (omega arith) n3_named n3_other n3-HasAddress

leaderless-idle : leaderless.node.role ≢ leader
leaderless-idle e = absurd (cc e)

abbrev host2 : String
host2 = "host2"

next_apart : host2 ≢ "host1"
next_apart e = let same : false ≡ true = ap (λ s. str_eq s "host2") (sym e) in absurd (cc same)

-- What the second node holds for the key.
abbrev second_answers : ℕ → String → Option GetResponse
second_answers attempt a = some (record { value = some (7 ∷ []); leader_hint = "" })

unknown_leader_reads_as_missing_example :
    (do_get
        (λ attempt a.
          if str_eq a "host1"
          then some (handle_get (97 ∷ []) leaderless)
          else second_answers attempt a)
        ("host1" ∷ "host2" ∷ [])
      ≡ some none)
    × (do_write
          (λ attempt a.
            if str_eq a "host1"
            then answer (handle_write marshal (put_command (5 ∷ []) (6 ∷ [])) leaderless).0
            else some (record { success = true; leader_hint = "" }))
          ("host1" ∷ "host2" ∷ [])
        ≡ true)
unknown_leader_reads_as_missing_example =
    unknown_leader_reads_as_missing marshal (put_command (5 ∷ []) (6 ∷ [])) (97 ∷ []) leaderless
      "host1" "host2" [] second_answers leaderless-idle refl next_apart
