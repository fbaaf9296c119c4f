-- ===== src/Wal.antt =====
-- wal/wal.go: the write-ahead log as the directory of its segment files. What is written to a buffer
-- counts as written: every operation that reports no error has flushed it. proto.Marshal and
-- proto.Unmarshal are parameters, and so is the size at which a segment is full.
pub mod Record
pub mod Holds
pub mod Batch
pub mod Truncate
pub mod Bounds
pub mod Crash
pub mod Tests
use distributed_key_value_st.Wal.Record.{header_size, read_segment, encode_record}
use distributed_key_value_st.Raft.MemState.{keep_after, keep_up_to}
use distributed_key_value_st.Base.{
  ltb, ◌<◌, ◌++◌, ◌+◌, length, ◌>>=◌, ◌==◌, false, some, [], ◌∷◌, none, true, ◌≡◌, if◌then◌else◌,
  Option, ℕ, Bool, List, Bytes,
}
use Prim.Native.Nat.{bit_xor}
use distributed_key_value_st.Storage.Codec.{decode_record, put_uint32, length_uint32}
use distributed_key_value_st.Raft.Types.{LogEntry}

-- The files named by a first index, in the order of the names.
abbrev pub Segments : Type 0
Segments = List (ℕ × Bytes)

-- `current` is missing while no segment is open.
pub record Wal : Type 0 where
  pub segments : Segments
  pub current : Option ℕ
  pub size : ℕ
  pub last_index : ℕ

-- google.golang.org/protobuf: Marshal and Unmarshal of a LogEntry; `none` is an error.
pub record Proto : Type 0 where
  pub marshal : LogEntry → Option Bytes
  pub unmarshal : Bytes → Option LogEntry

-- What the log relies on: Unmarshal reads what Marshal wrote, and a message is smaller than 2 GiB.
pub record ProtoLaws (p : Proto) : Type 0 where
  pub round_trip : (e : LogEntry) (d : Bytes) → p.marshal e ≡ some d → p.unmarshal d ≡ some e
  pub small : (e : LogEntry) (d : Bytes) → p.marshal e ≡ some d → length d < 2147483648

-- O_CREATE with O_EXCL: an error if the file exists.
unfoldable pub create_file : ℕ → Segments → Option Segments
create_file n [] = some ((n, []) ∷ [])
create_file n ((m, c) ∷ segments) =
    let later = create_file n segments in
    if n == m
    then none
    else if ltb n m
    then some ((n, []) ∷ (m, c) ∷ segments)
    else (do rest ← later; some ((m, c) ∷ rest))

unfoldable pub append_file : ℕ → Bytes → Segments → Segments
append_file n bytes [] = []
append_file n bytes ((m, c) ∷ segments) =
    let later = append_file n bytes segments in
    if n == m then (m, c ++ bytes) ∷ segments else (m, c) ∷ later

-- createSegment: the flag is false for an error, which leaves the old segment open.
unfoldable pub create_segment : ℕ → Wal → Wal × Bool
create_segment first w = elim (create_file first w.segments) [
  | none ↦ (w, false)
  | some segments ↦ (record w { segments = segments; current = some first; size = 0 }, true)
]

-- writeRecord. With no open segment the code panics, and the model's operation fails.
unfoldable pub write_record : Bytes → Wal → Wal × Bool
write_record payload w = elim w.current [
  | none ↦ (w, false)
  | some name ↦ (
    record w {
      segments = append_file name (encode_record payload) w.segments;
      size = w.size + (header_size + length payload);
    },
    true,
  )
]

unfoldable pub write_entry : ℕ → Bytes → Wal × Bool → Wal × Bool
write_entry index payload (w, false) = (w, false)
write_entry index payload (w, true) =
    let written : Wal × Bool = write_record payload w in
    if written.1 then (record written.0 { last_index = index }, true) else (written.0, false)

-- The entries of all segments.
unfoldable pub read_segments : Proto → Segments → Option (List LogEntry)
read_segments p [] = some []
read_segments p ((m, c) ∷ segments) = do
  es ← read_segment p.unmarshal c
  rest ← read_segments p segments
  some (es ++ rest)

-- ReadAll.
unfoldable pub read_all : Proto → Wal → Option (List LogEntry)
read_all p w = read_segments p w.segments

-- Close. What is written afterwards fails.
unfoldable pub close : Wal → Wal
close w = record w { current = none }

module _ (p : Proto) where
  -- A round of the rewriting loops of TruncateSuffix and TruncatePrefix, which never start a new
  -- segment.
  unfoldable pub rewrite_entry : LogEntry → Wal → Wal × Bool
  rewrite_entry e w = elim (p.marshal e) [
    | none ↦ (w, false)
    | some payload ↦ write_entry e.index payload (w, true)
  ]

  unfoldable pub rewrite : List LogEntry → Wal → Wal × Bool
  rewrite [] w = (w, true)
  rewrite (e ∷ es) w =
      let here : Wal × Bool = rewrite_entry e w in
      let later : Wal × Bool = rewrite es here.0 in if here.1 then later else here

  -- Both truncations, after the old segments are read: they are removed, `first` is created and the
  -- kept entries are written to it.
  unfoldable pub replace_with : ℕ → ℕ → List LogEntry → Wal × Bool
  replace_with first last_index keep =
      rewrite keep
        (create_segment first
          (record { segments = []; current = none; size = 0; last_index = last_index })).0

  unfoldable pub truncate_suffix : ℕ → Wal → Wal × Bool
  truncate_suffix keep_index w = elim (read_segments p w.segments) [
    | none ↦ (record w { current = none }, false)
    | some es ↦ replace_with 1 0 (keep_up_to keep_index es)
  ]

  unfoldable pub truncate_prefix : ℕ → Wal → Wal × Bool
  truncate_prefix discard_index w = elim (read_segments p w.segments) [
    | none ↦ (record w { current = none }, false)
    | some es ↦ replace_with (discard_index + 1) discard_index (keep_after discard_index es)
  ]

  -- The last index of the entries, as scanLastIndex finds it.
  unfoldable pub last_of : List LogEntry → ℕ
  last_of [] = 0
  last_of (e ∷ []) = e.index
  last_of (e ∷ x ∷ es) = last_of (x ∷ es)

  unfoldable pub open_last : Segments → Segments → Option Wal
  open_last all [] = none
  open_last all ((m, c) ∷ []) = do
    es ← read_segment p.unmarshal c
    some (record { segments = all; current = some m; size = length c; last_index = last_of es })
  open_last all (s ∷ t ∷ segments) = open_last all (t ∷ segments)

  -- Open, on the files that are there.
  unfoldable pub open_wal : Segments → Option Wal
  open_wal [] =
      some (create_segment 1 (record { segments = []; current = none; size = 0; last_index = 0 })).0
  open_wal (s ∷ segments) = open_last (s ∷ segments) (s ∷ segments)

module _ (p : Proto) (max_segment_size : ℕ) where
  -- A round of AppendBatch, and Append as a whole: the segment is rolled first, if the record would
  -- take it past the limit.
  unfoldable pub append : LogEntry → Wal → Wal × Bool
  append e w = elim (p.marshal e) [
    | none ↦ (w, false)
    | some payload ↦ write_entry e.index payload (
        if ltb max_segment_size (w.size + (header_size + length payload))
        then create_segment e.index w
        else (w, true))
  ]

  unfoldable pub append_batch : List LogEntry → Wal → Wal × Bool
  append_batch [] w = (w, true)
  append_batch (e ∷ es) w =
      let here : Wal × Bool = append e w in
      let later : Wal × Bool = append_batch es here.0 in if here.1 then later else here
