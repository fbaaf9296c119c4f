-- ===== src/Server/StateMachine.antt =====
-- server/statemachine.go: committed entries applied to the engine.
pub mod Stream
pub mod Clients
pub mod Remembered
pub mod Retries
use distributed_key_value_st.Base.{
  ℕ, suc, ◌+◌, ◌%◌, Bool, true, false, List, [], ◌∷◌, ◌++◌, Option, none, some, ltb, leb, ◌==◌, not,
  ◌&&◌, ◌||◌, if◌then◌else◌, String, str_eq, Bytes,
}
use distributed_key_value_st.Raft.Types.{
  Node, LogEntry, ApplyMsg, command, snapshot, PeerMap, peer_set, PersistentState,
}
use distributed_key_value_st.Raft.Commit.{Proposal, propose}
use distributed_key_value_st.Raft.Snapshot.{compact_log}
use distributed_key_value_st.Storage.Engine.{
  Engine, Sstables, put, delete, snapshot as engine_snapshot, load_snapshot,
}
use distributed_key_value_st.Server.Watch.{
  OpType, op_put, op_delete, ChangeEvent, ChangeBroadcaster, publish,
}

pub record Command : Type 0 where
  pub op : String
  pub key : Bytes
  pub value : Bytes
  pub client_id : String
  pub seq_num : ℕ

-- Result.Err, with `ok` for the empty string.
pub data Result : Type 0 where
  ok engine_closed unknown_op corrupt_entry superseded : Result

pub record PendingWrite : Type 0 where
  pub log_index : ℕ
  pub term : ℕ

-- `delivered` holds what was sent to the waiting clients, oldest first.
pub record StateMachine (T : Type 0) : Type 0 where
  pub engine : Engine T
  pub pending : List PendingWrite
  pub last_applied : ℕ
  pub last_seq : PeerMap
  pub snapshot_interval : ℕ
  pub broadcaster : ChangeBroadcaster
  pub delivered : List (PendingWrite × Result)

-- A lookup in the map lastSeq that tells a missing key.
unfoldable pub seq_of : PeerMap → String → Option ℕ
seq_of [] k = none
seq_of ((j, v) ∷ m) k = let rest = seq_of m k in if str_eq j k then some v else rest

-- A map from log indexes: the waiter of an index, and the map without it.
unfoldable pub waiter : ℕ → List PendingWrite → Option PendingWrite
waiter idx [] = none
waiter idx (pw ∷ ps) = let rest = waiter idx ps in if pw.log_index == idx then some pw else rest

unfoldable pub without : ℕ → List PendingWrite → List PendingWrite
without idx [] = []
without idx (pw ∷ ps) = let rest = without idx ps in if pw.log_index == idx then rest else pw ∷ rest

unfoldable pub op_of : String → OpType
op_of op = if str_eq op "delete" then op_delete else op_put

module _ {T : Type 0} where
  unfoldable pub notify_pending : ℕ → Result → StateMachine T → StateMachine T
  notify_pending idx result sm = elim (waiter idx sm.pending) [
    | none ↦ sm
    | some pw ↦ record sm {
      pending = without idx sm.pending;
      delivered = sm.delivered ++ (pw, result) ∷ [];
    }
  ]

  -- The command was applied before: its sequence number is not above the client's last one.
  unfoldable pub already_applied : Command → StateMachine T → Bool
  already_applied cmd sm =
      if str_eq cmd.client_id ""
      then false
      else elim (seq_of sm.last_seq cmd.client_id) [ none ↦ false | some seq ↦ leb cmd.seq_num seq ]

  -- The switch over the operation.
  unfoldable pub execute : Command → Engine T → Result × Engine T
  execute cmd e =
      if str_eq cmd.op "put"
      then (let (done, e') = put cmd.key cmd.value e in (if done then ok else engine_closed, e'))
      else if str_eq cmd.op "delete"
      then (let (done, e') = delete cmd.key e in (if done then ok else engine_closed, e'))
      else (unknown_op, e)

  -- What follows a successful write: the change event and the client's sequence number.
  unfoldable pub record_success : LogEntry → Command → StateMachine T → StateMachine T
  record_success entry cmd sm = record sm {
    broadcaster =
        publish
          (record {
            index = entry.index;
            term = entry.term;
            op = op_of cmd.op;
            key = cmd.key;
            value = cmd.value;
          })
          sm.broadcaster;
    last_seq =
        if str_eq cmd.client_id ""
        then sm.last_seq
        else peer_set sm.last_seq cmd.client_id cmd.seq_num;
  }

  -- apply of a decoded command whose index is new.
  unfoldable pub apply_command : LogEntry → Command → StateMachine T → StateMachine T
  apply_command entry cmd sm =
      if already_applied cmd sm
      then notify_pending entry.index ok (record sm { last_applied = entry.index })
      else (let (result, e') = execute cmd sm.engine in
          let sm' : StateMachine T = record sm { engine = e' } in
          let sm'' : StateMachine T = elim result [ ok ↦ record_success entry cmd sm' | _ ↦ sm' ] in
          notify_pending entry.index result (record sm'' { last_applied = entry.index }))

-- encoding/json is a parameter: `unmarshal` of a payload, where `none` is an error, and `marshal`.
module _ {T : Type 0} (unmarshal : Bytes → Option Command) where
  unfoldable pub apply : LogEntry → StateMachine T → StateMachine T
  apply entry sm =
      if leb entry.index sm.last_applied
      then notify_pending entry.index ok sm
      else elim (unmarshal entry.payload) [
        | none ↦ notify_pending entry.index corrupt_entry (record sm { last_applied = entry.index })
        | some cmd ↦ apply_command entry cmd sm
      ]

module _ {T : Type 0} where
  -- The loop of applySnapshot over the pending writes; the map's order is not the program's.
  unfoldable pub supersede : ℕ → List PendingWrite → StateMachine T → StateMachine T
  supersede idx [] sm = record sm { pending = [] }
  supersede idx (pw ∷ ps) sm =
      let rest = supersede idx ps sm in
      if leb pw.log_index idx
      then record rest { delivered = rest.delivered ++ (pw, superseded) ∷ [] }
      else record rest { pending = pw ∷ rest.pending }

module _ {T : Type 0} ⦃files : Sstables T⦄ where
  unfoldable pub apply_snapshot : Bytes → ℕ → StateMachine T → StateMachine T
  apply_snapshot blob idx sm =
      if leb idx sm.last_applied then sm else elim (load_snapshot blob sm.engine) [
        | none ↦ sm
        | some e ↦ record (supersede idx sm.pending (record sm { engine = e; last_seq = [] })) {
          last_applied = idx;
        }
      ]

module _ {T S : Type 0} ⦃files : Sstables T⦄ ⦃store : PersistentState S⦄ where
  unfoldable pub maybe_snapshot : ℕ → ℕ → StateMachine T × Node S → StateMachine T × Node S
  maybe_snapshot index term (sm, n) = elim (engine_snapshot sm.engine) [
    | none ↦ (sm, n)
    | some blob ↦ (sm, (compact_log blob index term n).1)
  ]

  unfoldable pub dispatch :
      (Bytes → Option Command) → ApplyMsg → StateMachine T × Node S → StateMachine T × Node S
  dispatch unmarshal (command entry) (sm, n) =
      let sm' = apply unmarshal entry sm in
      if ltb 0 sm'.snapshot_interval && entry.index % sm'.snapshot_interval == 0
      then maybe_snapshot entry.index entry.term (sm', n)
      else (sm', n)
  dispatch unmarshal (snapshot blob index term) (sm, n) = (apply_snapshot blob index sm, n)

  -- ProposeWrite up to the point where it blocks; `none` is ErrNotLeader.
  unfoldable pub propose_write :
      (Command → Bytes) → Command → StateMachine T × Node S → Option (StateMachine T × Node S)
  propose_write marshal cmd (sm, n) =
      let (p, n') = propose (marshal cmd) n in
      if p.is_leader
      then some (
        record sm {
          pending = record { log_index = p.index; term = p.term } ∷ without p.index sm.pending;
        },
        n',
      )
      else none
