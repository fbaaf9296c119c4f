-- ===== src/Server/Recovery.antt =====
-- A crash after the state machine has compacted the log.
use distributed_key_value_st.Base.{
  ℕ, ◌%◌, ◌≤◌, ◌<◌, ◌≡◌, inl, inr, refl, ap, ◌∙◌, true, Option, some, ltb, ◌==◌, Bytes, arith, drop,
  Option-cases,
}
use distributed_key_value_st.Raft.Types.{LogEntry, Node, command}
use distributed_key_value_st.Raft.MemState.{MemState, mem_state, keep_after}
use distributed_key_value_st.Raft.Election.{new_node}
use distributed_key_value_st.Raft.Snapshot.{compact_log, start}
use distributed_key_value_st.Raft.Snapshot.Recover.{start_recovers}
use distributed_key_value_st.Storage.Engine.{Engine, Sstables, put, delete, open_engine, snapshot}
use distributed_key_value_st.Storage.Engine.View.{TableLaws, view, value_of, in_tables}
use distributed_key_value_st.Server.StateMachine.{
  Command, StateMachine, notify_pending, execute, record_success, apply_command, apply,
  maybe_snapshot, dispatch,
}

module _ {T : Type 0} where
  execute-sstables : (cmd : Command) (e : Engine T) → (execute cmd e).1.sstables ≡ e.sstables
  unfolding execute put delete
  execute-sstables cmd e = ground arith

  apply_command-sstables :
      (entry : LogEntry) (cmd : Command) (sm : StateMachine T)
      → (apply_command entry cmd sm).engine.sstables ≡ sm.engine.sstables
  unfolding apply_command record_success notify_pending
  apply_command-sstables entry cmd sm = ground (arith, execute-sstables cmd sm.engine)

  apply-sstables :
      (unmarshal : Bytes → Option Command) (entry : LogEntry) (sm : StateMachine T)
      → (apply unmarshal entry sm).engine.sstables ≡ sm.engine.sstables
  unfolding apply notify_pending
  apply-sstables unmarshal entry sm = elim (Option-cases (unmarshal entry.payload)) [
    | inl n ↦ ground (arith, n)
    | inr (cmd, n) ↦ ground (arith, n, apply_command-sstables entry cmd sm)
  ]

compacted :
    (blob : Bytes) (index term : ℕ) (n : Node MemState)
    → n.last_included_index < index
    → index ≤ n.commit_index
    → ((compact_log blob index term n).1.storage.entries ≡ keep_after index n.storage.entries)
      × ((compact_log blob index term n).1.storage.last_included_index ≡ index)
unfolding compact_log
compacted blob index term n older held = ground arith

module _ {T : Type 0} ⦃files : Sstables T⦄ where
  dispatch_snapshots :
      (unmarshal : Bytes → Option Command) (entry : LogEntry) (sm : StateMachine T)
      (n : Node MemState) (blob : Bytes)
      → 0 < (apply unmarshal entry sm).snapshot_interval
      → (entry.index % (apply unmarshal entry sm).snapshot_interval == 0) ≡ true
      → snapshot (apply unmarshal entry sm).engine ≡ some blob
      → dispatch unmarshal (command entry) (sm, n)
        ≡ (apply unmarshal entry sm, (compact_log blob entry.index entry.term n).1)
  unfolding dispatch maybe_snapshot
  dispatch_snapshots unmarshal entry sm n blob on due taken =
      let some_interval : ltb 0 (apply unmarshal entry sm).snapshot_interval ≡ true =
        ground arith in
      rw (some_interval, due, maybe_snapshot, taken) refl

module _ {T : Type 0} ⦃files : Sstables T⦄ (laws : TableLaws files) where
  -- A crash after the state machine has taken a snapshot loses every write that the engine has not
  -- flushed: the restarted node begins to commit behind the entry that was applied last, its log has
  -- only entries behind it, and the engine that is opened from its tables stands for what the tables
  -- held. The entry is committed and not yet in a snapshot, the interval asks for a snapshot at its
  -- index, the engine can take it, and the node's store is the one in memory.
  pub snapshot_then_crash :
      (unmarshal : Bytes → Option Command) (entry : LogEntry) (sm : StateMachine T)
      (n : Node MemState) (blob q : Bytes)
      → n.last_included_index < entry.index
      → entry.index ≤ n.commit_index
      → 0 < (apply unmarshal entry sm).snapshot_interval
      → (entry.index % (apply unmarshal entry sm).snapshot_interval == 0) ≡ true
      → snapshot (apply unmarshal entry sm).engine ≡ some blob
      → let (sm', n') = dispatch unmarshal (command entry) (sm, n) in
        ((m : Node MemState) × (start (new_node n.cfg n'.storage) ≡ some m)
          × (m.commit_index ≡ entry.index)
          × (drop 1 m.log ≡ keep_after entry.index n.storage.entries))
        × (view laws q (open_engine sm'.engine.sstables)
            ≡ value_of (in_tables laws q sm.engine.sstables))
  unfolding open_engine
  snapshot_then_crash unmarshal entry sm n blob q older held on due taken =
      let n' = (compact_log blob entry.index entry.term n).1 in
      let (left, base) = compacted blob entry.index entry.term n older held in
      let (m, started, r) = start_recovers n.cfg n'.storage in
      rw (dispatch_snapshots unmarshal entry sm n blob on due taken) (
        ((m, started, r.commit ∙ base, ap (drop 1) r.log ∙ left)),
        ap (λ ts. value_of (in_tables laws q ts)) (apply-sstables unmarshal entry sm),
      )
