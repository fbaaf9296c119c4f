-- ===== src/Server/WalState/Refine.antt =====
-- server/walstate.go against raft/memstate.go: the files give back what the store in memory does.
use distributed_key_value_st.Server.WalState.SnapshotFile.{decode_snapshot_file-encode}
use distributed_key_value_st.Wal.Truncate.{truncate_prefix_reads, truncate_suffix_reads}
use distributed_key_value_st.Wal.Crash.{open_wal-Keeps}
use distributed_key_value_st.Wal.Batch.{
  Ready, Keeps, append_batch-Keeps, Marshalled, read_all-Keeps,
}
use distributed_key_value_st.Raft.MemState.{
  keep_after, keep_up_to, new_mem_state, mem_state, MemState,
}
use distributed_key_value_st.Base.{
  inl, ◌+◌, ◌++◌, none, true, [], ◌<◌, some, ◌≡◌, String, ◌∷◌, refl, Bool, List, ℕ, Bytes,
}
use distributed_key_value_st.Raft.Types.{LogEntry, PersistentState}
use distributed_key_value_st.Raft.Step.Kept.{KeepsHardState}
use distributed_key_value_st.Wal.{
  create_file, create_segment, open_wal, Wal, Proto, ProtoLaws, append_batch,
  truncate_suffix as wal_truncate_suffix, truncate_prefix as wal_truncate_prefix,
}
use distributed_key_value_st.Server.WalState.{
  with_wal, new_wal_state, load_snapshot_meta, WalState, wal_state, save_hard_state,
  load_hard_state, save_snapshot, load_snapshot,
}

-- What was saved as hard state is loaded, and nothing else touches it.
pub wal_state-KeepsHardState : (p : Proto) (limit : ℕ) → KeepsHardState (wal_state p limit)
unfolding save_hard_state load_hard_state save_snapshot with_wal
wal_state-KeepsHardState p limit = record {
  saved = λ t v s. refl;
  appended = λ es s. refl;
  cut_suffix = λ k s. refl;
  cut_prefix = λ k s. refl;
  snapshotted = λ b i t s. refl;
}

-- The writing operations of a PersistentState.
pub data StoreOp : Type 0 where
  hard : ℕ → String → StoreOp
  append : List LogEntry → StoreOp
  suffix : ℕ → StoreOp
  prefix : ℕ → StoreOp
  snapshot : Bytes → ℕ → ℕ → StoreOp

module _ {S : Type 0} where
  abbrev pub run : PersistentState S → StoreOp → S → S × Bool
  run p (hard t v) s = p.save_hard_state t v s
  run p (append es) s = p.append_entries es s
  run p (suffix k) s = p.truncate_suffix k s
  run p (prefix k) s = p.truncate_prefix k s
  run p (snapshot b i t) s = p.save_snapshot b i t s

  abbrev pub run_all : PersistentState S → List StoreOp → S → S
  run_all p [] s = s
  run_all p (o ∷ os) s = run_all p os (run p o s).0

module _ (p : Proto) (laws : ProtoLaws p) where
  -- The files stand for the store in memory.
  pub record Represents (s : WalState) (m : MemState) : Type 0 where
    pub hard_state : load_hard_state s ≡ some (m.term, m.voted)
    pub name : ℕ
    pub log : Keeps p laws s.wal name m.entries
    pub snapshot : load_snapshot s ≡ some (m.snapshot, m.last_included_index, m.last_included_term)
    pub header : load_snapshot_meta s ≡ some (m.last_included_index, m.last_included_term)

  -- An append has to be of entries that can be marshalled and that rise from the open segment, and a
  -- snapshot's index and term have to fit in a uint64.
  abbrev pub Allowed : ℕ → StoreOp → WalState → Type 0
  Allowed limit (hard t v) s = Unit {0}
  Allowed limit (append es) s =
      Marshalled p es × ((name : ℕ) → s.wal.current ≡ some name → Ready p limit s.wal name es)
  Allowed limit (suffix k) s = Unit {0}
  Allowed limit (prefix k) s = Unit {0}
  Allowed limit (snapshot b i t) s = (i < 18446744073709551616) × (t < 18446744073709551616)

  abbrev pub AllAllowed : ℕ → List StoreOp → WalState → Type 0
  AllAllowed limit [] s = Unit {0}
  AllAllowed limit (o ∷ os) s =
      Allowed limit o s × AllAllowed limit os (run (wal_state p limit) o s).0

  -- A change of the log alone.
  relog :
      (s : WalState) (m : MemState) (r : Wal × Bool) (name : ℕ) (es : List LogEntry)
      → Represents s m
      → (r.1 ≡ true) × Keeps p laws r.0 name es
      → ((with_wal s r).1 ≡ true) × Represents (with_wal s r).0 (record m { entries = es })
  unfolding with_wal load_hard_state load_snapshot load_snapshot_meta
  relog s m (w, ok) name es r (done, k) = (
    done,
    record {
      hard_state = r.hard_state;
      name = name;
      log = k;
      snapshot = r.snapshot;
      header = r.header;
    },
  )

  -- An allowed operation succeeds on the files, and they then stand for what the store in memory has
  -- become.
  pub run-Represents :
      (limit : ℕ) (o : StoreOp) (s : WalState) (m : MemState)
      → Represents s m
      → Allowed limit o s
      → ((run (wal_state p limit) o s).1 ≡ true)
        × Represents (run (wal_state p limit) o s).0 (run mem_state o m).0
  unfolding save_hard_state load_hard_state save_snapshot load_snapshot load_snapshot_meta
  run-Represents limit (hard t v) s m r a = (
    refl,
    record {
      hard_state = refl;
      name = r.name;
      log = r.log;
      snapshot = r.snapshot;
      header = r.header;
    },
  )
  run-Represents limit (append es) s m r (ms, ready) =
      let (done, (name, k)) =
        append_batch-Keeps p laws limit es s.wal r.name m.entries r.log ms
          (ready r.name r.log.is_open) in
      relog s m (append_batch p limit es s.wal) name (m.entries ++ es) r (done, k)
  run-Represents limit (suffix k) s m r a =
      let (done, kept, reads) = truncate_suffix_reads p laws k s.wal r.name m.entries r.log in
      relog s m (wal_truncate_suffix p k s.wal) 1 (keep_up_to k m.entries) r (done, kept)
  run-Represents limit (prefix k) s m r a =
      let (done, kept, reads) = truncate_prefix_reads p laws k s.wal r.name m.entries r.log in
      relog s m (wal_truncate_prefix p k s.wal) (k + 1) (keep_after k m.entries) r (done, kept)
  run-Represents limit (snapshot b i t) s m r (hi, ht) =
      let (whole, head) = decode_snapshot_file-encode b i t hi ht in
      (
        refl,
        record {
          hard_state = r.hard_state;
          name = r.name;
          log = r.log;
          snapshot = whole;
          header = head;
        },
      )

  -- What the loads of the two stores give is the same.
  abbrev pub SameLoads : ℕ → WalState → MemState → Type 0
  SameLoads limit s m =
      let files = wal_state p limit in
      (files.load_hard_state s ≡ mem_state.load_hard_state m)
      × (files.load_entries s ≡ mem_state.load_entries m)
      × (files.load_snapshot s ≡ mem_state.load_snapshot m)
      × (files.load_snapshot_meta s ≡ mem_state.load_snapshot_meta m)

  Represents-SameLoads :
      (limit : ℕ) (s : WalState) (m : MemState) → Represents s m → SameLoads limit s m
  Represents-SameLoads limit s m r =
      (r.hard_state, read_all-Keeps p laws s.wal r.name m.entries r.log, r.snapshot, r.header)

  -- The files refine the store in memory: after any sequence of allowed writes the term, the vote,
  -- the entries and the snapshot that they give back are those that the store in memory gives back
  -- after the same writes, if they stood for it at the start.
  pub wal_state-SameLoads :
      (limit : ℕ) (os : List StoreOp) (s : WalState) (m : MemState)
      → Represents s m
      → AllAllowed limit os s
      → SameLoads limit (run_all (wal_state p limit) os s) (run_all mem_state os m)
  wal_state-SameLoads limit [] s m r a = Represents-SameLoads limit s m r
  wal_state-SameLoads limit (o ∷ os) s m r (a, as_) =
      let (done, r') = run-Represents limit o s m r a in
      wal_state-SameLoads limit os (run (wal_state p limit) o s).0 (run mem_state o m).0 r' as_

  -- After a restart the files, opened again, stand for the same store, so that a node loads what the
  -- store in memory would give it.
  pub new_wal_state-SameLoads :
      (limit : ℕ) (s : WalState) (m : MemState)
      → Represents s m
      → (t : WalState) × (new_wal_state p s ≡ some t) × Represents t m × SameLoads limit t m
  unfolding new_wal_state load_hard_state load_snapshot load_snapshot_meta
  new_wal_state-SameLoads limit s m r =
      let (w, opened, k, reads) = open_wal-Keeps p laws s.wal r.name m.entries r.log in
      let again : Represents (record s { wal = w }) m = record {
        hard_state = r.hard_state;
        name = r.name;
        log = k;
        snapshot = r.snapshot;
        header = r.header;
      } in
      (
        record s { wal = w },
        rw opened refl,
        again,
        Represents-SameLoads limit (record s { wal = w }) m again,
      )

  -- A fresh directory stands for a fresh store.
  pub new_wal_state-fresh :
      (s : WalState) × (new_wal_state p (record {
        wal = record { segments = []; current = none; size = 0; last_index = 0 };
        hard_state = none;
        snapshot = none;
      })
        ≡ some s)
      × Represents s new_mem_state
  unfolding new_wal_state open_wal create_segment create_file load_hard_state load_snapshot
      load_snapshot_meta
  new_wal_state-fresh = (
    record {
      wal = record { segments = (1, []) ∷ []; current = some 1; size = 0; last_index = 0 };
      hard_state = none;
      snapshot = none;
    },
    refl,
    record {
      hard_state = refl;
      name = 1;
      log = record { is_open = refl; held = inl (refl, refl, refl, refl) };
      snapshot = refl;
      header = refl;
    },
  )
