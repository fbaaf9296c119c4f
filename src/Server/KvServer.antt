-- ===== src/Server/KvServer.antt =====
-- server/kvserver.go: the handlers of client requests. gRPC calls them, and a write blocks between its
-- proposal and its result.
pub mod Redirect
pub mod Alone
use distributed_key_value_st.Raft.Append.{handle_append_entries}
use distributed_key_value_st.Server.Watch.{new_change_broadcaster}
use distributed_key_value_st.Raft.Snapshot.{handle_install_snapshot, start}
use distributed_key_value_st.Raft.Election.{handle_request_vote, new_node}
use distributed_key_value_st.Base.{
  ◌>>=◌, ℕ, str_eq, true, ◌∷◌, none, some, if◌then◌else◌, [], false, Bytes, Option, List, String,
}
use distributed_key_value_st.Raft.Accessors.{leader_id, is_leader}
use distributed_key_value_st.Raft.Types.{
  AppendEntriesResponse, RequestVoteResponse, InstallSnapshotResponse, AppendEntriesRequest,
  InstallSnapshotRequest, RequestVoteRequest, Node, PersistentState,
}
use distributed_key_value_st.Storage.Engine.{Engine, open_engine, Sstables, get}
use distributed_key_value_st.Server.StateMachine.{
  Command, Result, ok, PendingWrite, StateMachine, propose_write,
}
use distributed_key_value_st.Client.{GetResponse, WriteResponse}

pub record ServerConfig : Type 0 where
  pub node_id : String
  pub listen_addr : String
  pub peers : List (String × String)

pub record KvServer (T S : Type 0) : Type 0 where
  pub cfg : ServerConfig
  pub node : Node S
  pub sm : StateMachine T

-- What a write request has come to: an answer, or a wait for its log entry.
pub data Reply : Type 0 where
  replied : WriteResponse → Reply
  waiting : PendingWrite → Reply

-- A map with string keys; a missing key reads as "".
unfoldable pub peer_addr : String → List (String × String) → String
peer_addr id [] = ""
peer_addr id ((x, addr) ∷ ps) = let rest = peer_addr id ps in if str_eq x id then addr else rest

-- A command that the server makes carries no client and no sequence number.
unfoldable pub put_command : Bytes → Bytes → Command
put_command key value = record { op = "put"; key = key; value = value; client_id = ""; seq_num = 0 }

unfoldable pub delete_command : Bytes → Command
delete_command key = record { op = "delete"; key = key; value = []; client_id = ""; seq_num = 0 }

-- The second half of Put and Delete; `none` is an error.
unfoldable pub finish_write : Result → Option WriteResponse
finish_write ok = some (record { success = true; leader_hint = "" })
finish_write _ = none

-- The write that was registered last; a proposal that is accepted registers one.
unfoldable pub wait_for : List PendingWrite → Reply
wait_for [] = replied (record { success = false; leader_hint = "" })
wait_for (pw ∷ ps) = waiting pw

module _ {T S : Type 0} where
  unfoldable pub leader_hint_addr : KvServer T S → String
  leader_hint_addr s =
      let id = leader_id s.node in
      if str_eq id ""
      then ""
      else if str_eq id s.cfg.node_id
      then s.cfg.listen_addr
      else peer_addr id s.cfg.peers

module _ {T S : Type 0} ⦃files : Sstables T⦄ where
  -- ReadValue; `none` is ErrNotLeader.
  unfoldable pub read_value : Bytes → KvServer T S → Option (Option Bytes)
  read_value key s = if is_leader s.node then some (get key s.sm.engine) else none

  unfoldable pub handle_get : Bytes → KvServer T S → GetResponse
  handle_get key s = elim (read_value key s) [
    | none ↦ record { value = none; leader_hint = leader_hint_addr s }
    | some value ↦ record { value = value; leader_hint = "" }
  ]

module _ {T S : Type 0} ⦃files : Sstables T⦄ ⦃store : PersistentState S⦄ where
  -- The first half of Put and Delete, for their commands.
  unfoldable pub handle_write : (Command → Bytes) → Command → KvServer T S → Reply × KvServer T S
  handle_write marshal cmd s = elim (propose_write marshal cmd (s.sm, s.node)) [
    | none ↦ (replied (record { success = false; leader_hint = leader_hint_addr s }), s)
    | some (sm, n) ↦ (wait_for sm.pending, record s { sm = sm; node = n })
  ]

  -- Put and Delete up to the point where they block.
  unfoldable pub handle_put :
      (Command → Bytes) → Bytes → Bytes → KvServer T S → Reply × KvServer T S
  handle_put marshal key value s = handle_write marshal (put_command key value) s

  unfoldable pub handle_delete : (Command → Bytes) → Bytes → KvServer T S → Reply × KvServer T S
  handle_delete marshal key s = handle_write marshal (delete_command key) s

module _ {T S : Type 0} ⦃store : PersistentState S⦄ where
  -- The handlers of the RPCs of peers.
  unfoldable pub on_request_vote :
      RequestVoteRequest → KvServer T S → RequestVoteResponse × KvServer T S
  on_request_vote req s =
      let (resp, n) = handle_request_vote req s.node in (resp, record s { node = n })

  unfoldable pub on_append_entries :
      AppendEntriesRequest → KvServer T S → AppendEntriesResponse × KvServer T S
  on_append_entries req s =
      let (resp, n) = handle_append_entries req s.node in (resp, record s { node = n })

  unfoldable pub on_install_snapshot :
      InstallSnapshotRequest → KvServer T S → InstallSnapshotResponse × KvServer T S
  on_install_snapshot req s =
      let (resp, n) = handle_install_snapshot req s.node in (resp, record s { node = n })

module _ {T : Type 0} where
  -- NewStateMachine; `interval` is what WithSnapshotInterval sets, 0 without it.
  unfoldable pub new_state_machine : ℕ → Engine T → StateMachine T
  new_state_machine interval engine = record {
    engine = engine;
    pending = [];
    last_applied = 0;
    last_seq = [];
    snapshot_interval = interval;
    broadcaster = new_change_broadcaster;
    delivered = [];
  }

module _ {T S : Type 0} where
  -- NewKVServer, on the tables and the store that are found on the disk.
  unfoldable pub new_kv_server : ServerConfig → List T → S → KvServer T S
  new_kv_server cfg tables storage = record {
    cfg = cfg;
    node = new_node (record { id = cfg.node_id; peers = cfg.peers }) storage;
    sm = new_state_machine 0 (open_engine tables);
  }

module _ {T S : Type 0} ⦃store : PersistentState S⦄ where
  -- Start; `none` is an error of the node's Start.
  unfoldable pub start_server : KvServer T S → Option (KvServer T S)
  start_server s = do n ← start s.node; some (record s { node = n })
