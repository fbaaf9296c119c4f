-- ===== src/Server/WalState.antt =====
-- server/walstate.go: the PersistentState that keeps the log in the write-ahead log, the term and the
-- vote in hardstate.json, and the snapshot with its index and term in snapshot.bin. encoding/json
-- stands behind the hard state, which is kept as its two fields; a write to a temporary file and its
-- renaming are one step.
pub mod SnapshotFile
pub mod Refine
use distributed_key_value_st.Storage.Codec.{read_uint64, read_full, put_uint64}
use distributed_key_value_st.Base.{
  length, ltb, ◌++◌, true, [], ◌>>=◌, some, if◌then◌else◌, none, String, Option, Bool, ℕ, Bytes,
}
use distributed_key_value_st.Wal.{
  Wal, Proto, open_wal, append_batch, read_all, truncate_suffix as wal_truncate_suffix,
  truncate_prefix as wal_truncate_prefix,
}
use distributed_key_value_st.Raft.Types.{LogEntry, PersistentState}

pub record WalState : Type 0 where
  pub wal : Wal
  pub hard_state : Option (ℕ × String)
  pub snapshot : Option Bytes

-- On the change of a log, with the success of the change.
unfoldable pub with_wal : WalState → Wal × Bool → WalState × Bool
with_wal s (w, ok) = (record s { wal = w }, ok)

-- newWALState, on a directory with these files.
unfoldable pub new_wal_state : Proto → WalState → Option WalState
new_wal_state p s = do w ← open_wal p s.wal.segments; some (record s { wal = w })

unfoldable pub save_hard_state : ℕ → String → WalState → WalState × Bool
save_hard_state term voted_for s = (record s { hard_state = some (term, voted_for) }, true)

-- Zero values on a fresh node.
unfoldable pub load_hard_state : WalState → Option (ℕ × String)
load_hard_state s = elim s.hard_state [ none ↦ some (0, "") | some h ↦ some h ]

-- SaveSnapshot's file: index, term and data.
unfoldable pub encode_snapshot_file : Bytes → ℕ → ℕ → Bytes
encode_snapshot_file bytes last_included_index last_included_term =
    put_uint64 last_included_index ++ (put_uint64 last_included_term ++ bytes)

unfoldable pub save_snapshot : Bytes → ℕ → ℕ → WalState → WalState × Bool
save_snapshot bytes last_included_index last_included_term s = (
  record s { snapshot = some (encode_snapshot_file bytes last_included_index last_included_term) },
  true,
)

unfoldable pub decode_snapshot_file : Bytes → Option (Bytes × ℕ × ℕ)
decode_snapshot_file buf = if ltb (length buf) 16 then none else (do
  (index, r1) ← read_uint64 buf
  (term, bytes) ← read_uint64 r1
  some (bytes, index, term))

-- No file yet: no data, index 0 and term 0.
unfoldable pub load_snapshot : WalState → Option (Bytes × ℕ × ℕ)
load_snapshot s = elim s.snapshot [ none ↦ some ([], 0, 0) | some buf ↦ decode_snapshot_file buf ]

-- io.ReadFull of the 16 bytes of the header.
unfoldable pub decode_snapshot_header : Bytes → Option (ℕ × ℕ)
decode_snapshot_header buf = do
  (header, r1) ← read_full 16 buf
  (index, r2) ← read_uint64 header
  (term, r3) ← read_uint64 r2
  some (index, term)

unfoldable pub load_snapshot_meta : WalState → Option (ℕ × ℕ)
load_snapshot_meta s = elim s.snapshot [
  | none ↦ some (0, 0)
  | some buf ↦ decode_snapshot_header buf
]

-- walState, on segments of at most `max_segment_size` bytes.
abbrev pub wal_state : Proto → ℕ → PersistentState WalState
wal_state p max_segment_size = record {
  save_hard_state = save_hard_state;
  load_hard_state = load_hard_state;
  append_entries = λ es s. with_wal s (append_batch p max_segment_size es s.wal);
  load_entries = λ s. read_all p s.wal;
  truncate_suffix = λ k s. with_wal s (wal_truncate_suffix p k s.wal);
  save_snapshot = save_snapshot;
  load_snapshot = load_snapshot;
  load_snapshot_meta = load_snapshot_meta;
  truncate_prefix = λ k s. with_wal s (wal_truncate_prefix p k s.wal);
}
