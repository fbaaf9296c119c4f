-- ===== src/Server/Tests/Stores.antt =====
-- The theorems about the files of a node at a fresh directory.
use distributed_key_value_st.Raft.MemState.{new_mem_state, mem_state}
use distributed_key_value_st.Server.WalState.Refine.{
  new_wal_state-SameLoads, prefix, wal_state-SameLoads, snapshot, hard, Represents, append, run_all,
  StoreOp, AllAllowed, SameLoads,
}
use distributed_key_value_st.Server.WalState.{
  wal_state, load_snapshot_meta, new_wal_state, load_snapshot, load_hard_state, WalState,
}
use distributed_key_value_st.Base.{refl, [], some, arith, ◌∷◌, none, ◌≡◌, List}
use distributed_key_value_st.Wal.Tests.{plain, plain-ProtoLaws}
use distributed_key_value_st.Wal.Tests.Logs.{
  room, fresh, batch, fresh-Keeps, batch-Marshalled, batch-Ready,
}

abbrev files : WalState
files = record { wal = fresh; hard_state = none; snapshot = none }

files-Represents : Represents plain plain-ProtoLaws files new_mem_state
unfolding load_hard_state load_snapshot load_snapshot_meta
files-Represents = record {
  hard_state = refl;
  name = 1;
  log = fresh-Keeps;
  snapshot = refl;
  header = refl;
}

-- Two entries, a vote, a snapshot of the first entry and the cut that follows it.
abbrev writes : List StoreOp
writes = append batch ∷ hard 3 "n2" ∷ snapshot (9 ∷ []) 1 1 ∷ prefix 1 ∷ []

writes-AllAllowed : AllAllowed plain plain-ProtoLaws room writes files
writes-AllAllowed = (
  (batch-Marshalled, λ name h. let same : 1 ≡ name = ground (arith, h) in rw⁻¹ same batch-Ready),
  (tt, ((omega arith, omega arith), (tt, tt))),
)

wal_state-SameLoads_example :
    SameLoads plain plain-ProtoLaws room
      (run_all (wal_state plain room) writes files)
      (run_all mem_state writes new_mem_state)
wal_state-SameLoads_example =
    wal_state-SameLoads plain plain-ProtoLaws room writes files new_mem_state files-Represents
      writes-AllAllowed

new_wal_state-SameLoads_example :
    (t : WalState) × (new_wal_state plain files ≡ some t)
    × Represents plain plain-ProtoLaws t new_mem_state
    × SameLoads plain plain-ProtoLaws room t new_mem_state
new_wal_state-SameLoads_example =
    new_wal_state-SameLoads plain plain-ProtoLaws room files new_mem_state files-Represents
