-- ===== src/Server/Tests.antt =====
-- The theorems of the package server at a concrete state machine, over a table file that is the list
-- of its entries and a decoder for one-byte payloads.
mod Transports
mod Stores
mod Requests
use distributed_key_value_st.Base.{
  ◌<◌, ℕ, zero, suc, ◌+◌, ◌≡◌, ◌≢◌, inl, refl, sym, ap, true, false, List, [], ◌∷◌, Option, none,
  some, String, str_eq, Bytes, arith,
}
use distributed_key_value_st.Raft.Types.{LogEntry, entry_normal}
use distributed_key_value_st.Storage.Engine.View.{view}
use distributed_key_value_st.Storage.Tests.{engine, listed, listed-TableLaws, engine-WellFormed}
use distributed_key_value_st.Storage.Memtable.{MemEntry}
use distributed_key_value_st.Server.Watch.{
  ChangeEvent, WatchSubscriber, ChangeBroadcaster, op_put, new_change_broadcaster,
}
use distributed_key_value_st.Server.StateMachine.{
  Command, StateMachine, PendingWrite, ok, waiter, apply,
}
use distributed_key_value_st.Server.StateMachine.Stream.{apply_all, replay, Holds, apply_all-replay}
use distributed_key_value_st.Server.StateMachine.Clients.{
  Answered, reply_to, apply-Answered, other_write_answers_ok,
}
use distributed_key_value_st.Server.StateMachine.Retries.{apply_twice}
use distributed_key_value_st.Base.{drop, ◌%◌, ◌==◌}
use distributed_key_value_st.Raft.Types.{Node, command}
use distributed_key_value_st.Raft.MemState.{MemState, mem_state, keep_after}
use distributed_key_value_st.Raft.Election.{new_node}
use distributed_key_value_st.Raft.Snapshot.{start}
use distributed_key_value_st.Raft.Tests.{node, config}
use distributed_key_value_st.Storage.Codec.{encode_snapshot}
use distributed_key_value_st.Storage.Merge.{merge_entries}
use distributed_key_value_st.Storage.Engine.{put, read_all, layers, snapshot, open_engine}
use distributed_key_value_st.Storage.Engine.View.{value_of, in_tables}
use distributed_key_value_st.Storage.Tests.{a, two, live_entry}
use distributed_key_value_st.Server.StateMachine.{
  without, notify_pending, already_applied, execute, record_success, apply_command, dispatch,
}
use distributed_key_value_st.Server.Recovery.{snapshot_then_crash}

abbrev command_of : String → ℕ → Command
command_of c n = record { op = "put"; key = n ∷ []; value = n ∷ []; client_id = c; seq_num = n }

-- A payload that begins with 0 is of no named client, any other of client c.
abbrev unmarshal : Bytes → Option Command
unmarshal (zero ∷ n ∷ []) = some (command_of "" n)
unmarshal (suc k ∷ n ∷ []) = some (command_of "c" n)
unmarshal _ = none

abbrev entry : ℕ → Bytes → LogEntry
entry i p = record { index = i; term = 2; payload = p; entry_type = entry_normal }

abbrev waiting : PendingWrite
waiting = record { log_index = 4; term = 1 }

abbrev machine : StateMachine (List MemEntry)
machine = record {
  engine = engine;
  pending = waiting ∷ [];
  last_applied = 3;
  last_seq = [];
  snapshot_interval = 0;
  broadcaster = new_change_broadcaster;
  delivered = [];
}

machine-Holds : Holds listed-TableLaws machine.engine (λ q. view listed-TableLaws q engine)
machine-Holds = record { open_ = refl; well_formed = engine-WellFormed; viewed = λ q. refl }

no_client : (n : ℕ) (cmd : Command) → some (command_of "" n) ≡ some cmd → cmd.client_id ≡ ""
no_client n cmd h = ground (arith, h)

no_command : (cmd : Command) → none ≡ some cmd → cmd.client_id ≡ ""
no_command cmd h = absurd (ground (arith, h))

apply_all-replay_example :
    let es = entry 4 (0 ∷ 7 ∷ []) ∷ entry 5 [] ∷ [] in
    Holds listed-TableLaws
      (apply_all unmarshal es machine).engine
      (replay unmarshal es (λ q. view listed-TableLaws q engine))
    × ((apply_all unmarshal es machine).last_applied ≡ 3 + 2)
apply_all-replay_example =
    apply_all-replay listed-TableLaws unmarshal (entry 4 (0 ∷ 7 ∷ []) ∷ entry 5 [] ∷ []) machine
      (λ q. view listed-TableLaws q engine) (refl, (refl, tt)) (no_client 7, (no_command, tt))
      machine-Holds

found_waiter : waiter 4 machine.pending ≡ some waiting
unfolding waiter
found_waiter = refl

named : (command_of "c" 9).client_id ≢ ""
named e = let same : false ≡ true = ap (λ s. str_eq s "c") (sym e) in absurd (cc same)

-- Another write of the same client comes between the two.
abbrev between_them : List LogEntry
between_them = entry 5 (2 ∷ 9 ∷ []) ∷ []

apply_twice_example :
    let sm' = apply_all unmarshal between_them (apply unmarshal (entry 4 (1 ∷ 9 ∷ [])) machine) in
    (apply unmarshal (entry 6 (1 ∷ 9 ∷ [])) sm').engine ≡ sm'.engine
apply_twice_example =
    apply_twice unmarshal (entry 4 (1 ∷ 9 ∷ [])) (entry 6 (1 ∷ 9 ∷ [])) between_them
      (command_of "c" 9) (command_of "c" 9) machine (omega arith) refl refl named (inl refl) refl
      refl (omega arith)

abbrev event : ChangeEvent
event = record { index = 4; term = 2; op = op_put; key = 97 ∷ []; value = [] }

abbrev watcher : WatchSubscriber
watcher = record { token = 1; key_prefix = 97 ∷ []; ch = [] }

abbrev watched : ChangeBroadcaster
watched = record { subs = watcher ∷ []; closed = [] }

-- A snapshot after every second entry.
abbrev snapshotting : StateMachine (List MemEntry)
snapshotting = record machine { snapshot_interval = 2 }

abbrev fourth : LogEntry
fourth = entry 4 (0 ∷ 7 ∷ [])

abbrev committed : Node MemState
committed = record node { commit_index = 4 }

abbrev blob : Bytes
blob = encode_snapshot (
    merge_entries (
      layers ((live_entry a (9 ∷ []) ∷ []) ∷ two ∷ [])
        (apply unmarshal fourth snapshotting).engine))

snapshot_on : 0 < (apply unmarshal fourth snapshotting).snapshot_interval
unfolding apply apply_command already_applied execute put record_success notify_pending waiter
    without
snapshot_on = omega arith

snapshot_due : (4 % (apply unmarshal fourth snapshotting).snapshot_interval == 0) ≡ true
unfolding apply apply_command already_applied execute put record_success notify_pending waiter
    without
snapshot_due = refl

snapshot_taken : snapshot (apply unmarshal fourth snapshotting).engine ≡ some blob
unfolding snapshot read_all apply apply_command already_applied execute put record_success
    notify_pending waiter without
snapshot_taken = refl

snapshot_then_crash_example :
    let (sm', n') = dispatch unmarshal (command fourth) (snapshotting, committed) in
    ((m : Node MemState) × (start (new_node config n'.storage) ≡ some m)
      × (m.commit_index ≡ 4)
      × (drop 1 m.log ≡ keep_after 4 committed.storage.entries))
    × (view listed-TableLaws (7 ∷ []) (open_engine sm'.engine.sstables)
        ≡ value_of (in_tables listed-TableLaws (7 ∷ []) engine.sstables))
snapshot_then_crash_example =
    snapshot_then_crash listed-TableLaws unmarshal fourth snapshotting committed blob (7 ∷ [])
      (omega arith) (omega arith) snapshot_on snapshot_due snapshot_taken
