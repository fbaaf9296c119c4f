-- ===== src/Server/KvServer/Alone.antt =====
-- server/kvserver.go: a write and a read on a cluster of one node, through every layer.
use distributed_key_value_st.Storage.Engine.View.Reads.{put_then_get}
use distributed_key_value_st.Raft.Log.{last_log_index}
use distributed_key_value_st.Raft.Commit.Alone.{propose-Alone, Alone}
use distributed_key_value_st.Base.{
  ◌∙◌, ap, bytes_eq_refl, true, ◌==◌, refl, ◌+◌, ◌≤◌, arith, leb, [], ◌∷◌, ◌++◌, false, some, ◌≡◌,
  ◌<◌, Option, Bytes,
}
use distributed_key_value_st.Raft.Accessors.{is_leader_role, is_leader}
use distributed_key_value_st.Raft.Types.{Node, LogEntry, command, PersistentState}
use distributed_key_value_st.Raft.Commit.{propose, own_entry}
use distributed_key_value_st.Storage.Engine.{Sstables, put, get}
use distributed_key_value_st.Storage.Engine.View.{TableLaws, WellFormed}
use distributed_key_value_st.Server.StateMachine.{
  Command, ok, PendingWrite, StateMachine, propose_write, dispatch, apply, apply_command,
  already_applied, execute, record_success, notify_pending, waiter, without,
}
use distributed_key_value_st.Server.KvServer.{
  handle_put, waiting, Reply, wait_for, read_value, KvServer, handle_get, handle_write, put_command,
}

module _ {T : Type 0} where
  -- The entry of a put whose client waits: the engine takes the value, and the client is told.
  apply-put :
      (unmarshal : Bytes → Option Command) (key value : Bytes) (entry : LogEntry)
      (pw : PendingWrite) (sm : StateMachine T)
      → sm.last_applied < entry.index
      → unmarshal entry.payload ≡ some (put_command key value)
      → sm.engine.closed ≡ false
      → waiter entry.index sm.pending ≡ some pw
      → ((apply unmarshal entry sm).engine ≡ (put key value sm.engine).1)
        × ((apply unmarshal entry sm).delivered ≡ sm.delivered ++ (pw, ok) ∷ [])
        × ((apply unmarshal entry sm).snapshot_interval ≡ sm.snapshot_interval)
  unfolding apply apply_command already_applied execute record_success notify_pending put_command
      put
  apply-put unmarshal key value entry pw sm new decoded open_ waits =
      let fresh : leb entry.index sm.last_applied ≡ false = ground arith in
      ground (arith, fresh, decoded, open_, waits)

module _ {T S : Type 0} ⦃files : Sstables T⦄ ⦃store : PersistentState S⦄ where
  -- What a write request becomes on a lone leader: a client that waits for the next index.
  writes :
      (marshal : Command → Bytes) (cmd : Command) (s : KvServer T S)
      → Alone s.node
      → let pw : PendingWrite = record {
        log_index = last_log_index s.node + 1;
        term = s.node.current_term;
      } in
        handle_write marshal cmd s ≡ (
          waiting pw,
          record s {
            sm = record s.sm { pending = pw ∷ without pw.log_index s.sm.pending };
            node = (propose (marshal cmd) s.node).1;
          },
        )
  unfolding handle_write propose_write wait_for
  writes marshal cmd s a =
      let (told, sent, later) = propose-Alone (marshal cmd) s.node a in
      rw (told, handle_write, propose_write) refl

  dispatch-plain :
      (unmarshal : Bytes → Option Command) (e : LogEntry) (sm : StateMachine T) (n : Node S)
      → (apply unmarshal e sm).snapshot_interval ≡ 0
      → dispatch unmarshal (command e) (sm, n) ≡ (apply unmarshal e sm, n)
  unfolding dispatch
  dispatch-plain unmarshal e sm n off = rw (off, dispatch) refl

  leader_reads :
      (key value : Bytes) (s : KvServer T S)
      → is_leader_role s.node.role ≡ true
      → get key s.sm.engine ≡ some value
      → handle_get key s ≡ record { value = some value; leader_hint = "" }
  unfolding handle_get read_value is_leader
  leader_reads key value s leads held = ground (arith, leads, held)

  -- A Put on a cluster of one node, through every layer: the client waits for the next index, exactly
  -- its entry goes to the state machine, which tells the client that the write has succeeded, and a
  -- Get then answers with the value that was written; the node stays such a leader. The node is the
  -- leader, has committed its whole log and the state machine has applied no more than that; the
  -- engine is open, its layers are sorted, automatic snapshots are off, and the command is decoded as
  -- it was encoded.
  pub put_then_get-Alone :
      (laws : TableLaws files) (marshal : Command → Bytes) (unmarshal : Bytes → Option Command)
      (key value : Bytes) (s : KvServer T S)
      → Alone s.node
      → unmarshal (marshal (put_command key value)) ≡ some (put_command key value)
      → s.sm.last_applied ≤ last_log_index s.node
      → s.sm.snapshot_interval ≡ 0
      → s.sm.engine.closed ≡ false
      → WellFormed laws s.sm.engine
      → let r : Reply × KvServer T S = handle_put marshal key value s in
        let e = own_entry (marshal (put_command key value)) s.node in
        let after : StateMachine T × Node S = dispatch unmarshal (command e) (r.1.sm, r.1.node) in
        let s' : KvServer T S = record r.1 { sm = after.0; node = after.1 } in
        (pw : PendingWrite) × (r.0 ≡ waiting pw)
        × (r.1.node.apply_ch ≡ s.node.apply_ch ++ command e ∷ [])
        × (after.0.delivered ≡ s.sm.delivered ++ (pw, ok) ∷ [])
        × (handle_get key s' ≡ record { value = some value; leader_hint = "" })
        × Alone s'.node
  unfolding own_entry waiter handle_put
  put_then_get-Alone laws marshal unmarshal key value s a decoded applied off open_ w =
      let cmd = put_command key value in
      let e = own_entry (marshal cmd) s.node in
      let n = (propose (marshal cmd) s.node).1 in
      let (told, sent, later) = propose-Alone (marshal cmd) s.node a in
      let pw : PendingWrite = record {
        log_index = last_log_index s.node + 1;
        term = s.node.current_term;
      } in
      let sm : StateMachine T = record s.sm { pending = pw ∷ without pw.log_index s.sm.pending } in
      let here : (pw.log_index == pw.log_index) ≡ true = ground arith in
      let waits : waiter e.index sm.pending ≡ some pw = rw here refl in
      let (taken, answered, interval) =
        apply-put unmarshal key value e pw sm (omega (arith, applied)) decoded open_ waits in
      let same = bytes_eq_refl key in
      let held : get key (apply unmarshal e sm).engine ≡ some value =
        ap (get key) taken ∙ (put_then_get laws key value key s.sm.engine open_ w ∙ rw same refl) in
      rw (writes marshal cmd s a, dispatch-plain unmarshal e sm n (interval ∙ off))
        (
          pw,
          refl,
          sent,
          answered,
          leader_reads key value (record s { sm = apply unmarshal e sm; node = n }) later.leads
              held,
          later,
        )
