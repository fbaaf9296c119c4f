-- ===== src/Storage/Sstable.antt =====
-- storage/sstable.go: table files as the bytes that are written and read back, and the Bloom filter
-- in them. A file is its content. The disk has room for `capacity` bytes a file; a write past them is
-- the error that Write returns.
pub mod Bloom
pub mod Filter
pub mod Records
pub mod Scan
pub mod Files
pub mod Laws
use distributed_key_value_st.Storage.Codec.{
  read_full, read_uint32, read_uint64, length_uint32, put_uint32, put_uint64,
}
use distributed_key_value_st.Storage.Sstable.Bloom.{new_bloom, add_all, bloom_size, might_contain}
use distributed_key_value_st.Base.{
  ◌-◌, drop, zero, ◌>>=◌, bytes_leb, bytes_eq, some, length, suc, ◌^◌, [], ◌+◌, none, ◌++◌, ◌==◌,
  ltb, ℕ, if◌then◌else◌, ◌∷◌, Option, Bytes, List,
}
use distributed_key_value_st.Storage.Memtable.{EntryKind, MemEntry, kind_put, kind_delete}
use distributed_key_value_st.Storage.Engine.{Sstables}

abbrev pub sst_magic : ℕ
sst_magic = 0xdeadb0b5

-- One entry of the data block.
unfoldable pub kind_byte : EntryKind → ℕ
kind_byte kind_put = 0
kind_byte kind_delete = 1

-- A kind that is no delete is treated as a put by everything that reads it.
unfoldable pub entry_kind : ℕ → EntryKind
entry_kind b = if b == 1 then kind_delete else kind_put

unfoldable pub write_entries : List MemEntry → Bytes
write_entries [] = []
write_entries (e ∷ es) =
    put_uint32 (length_uint32 e.key)
    ++ (e.key
        ++ (put_uint32 (length_uint32 e.value)
            ++ (e.value ++ (kind_byte e.kind ∷ write_entries es))))

unfoldable pub footer : ℕ → ℕ → Bytes
footer bloom_offset entry_count =
    put_uint64 bloom_offset
    ++ (put_uint64 bloom_size ++ (put_uint32 entry_count ++ put_uint32 sst_magic))

-- SSTableWriter.Write; `none` is a disk that is full.
unfoldable pub write : ℕ → List MemEntry → Option Bytes
write capacity entries =
    let block = write_entries entries in
    let file = block ++ (add_all entries new_bloom ++ footer (length block) (length entries)) in
    if ltb capacity (length file) then none else some file

-- SSTableReader; the file behind its path never changes.
pub record Reader : Type 0 where
  pub file : Bytes
  pub bloom : Bytes
  pub entry_count : ℕ

pub record Footer : Type 0 where
  pub bloom_offset : ℕ
  pub entry_count : ℕ
  pub magic : ℕ

-- The last 24 bytes; the bloom size among them is not used.
unfoldable pub read_footer : Bytes → Option Footer
read_footer file = if ltb (length file) 24 then none else (do
  (bloom_offset, r1) ← read_uint64 (drop (length file - 24) file)
  (size, r2) ← read_uint64 r1
  (entry_count, r3) ← read_uint32 r2
  (magic, r4) ← read_uint32 r3
  some (record { bloom_offset = bloom_offset; entry_count = entry_count; magic = magic }))

-- OpenSSTable. An offset that is negative as an int64 lies past the end of every file.
unfoldable pub load_bloom : Bytes → Footer → Option Reader
load_bloom file f = do
  (bloom, rest) ← read_full bloom_size (drop f.bloom_offset file)
  some (record { file = file; bloom = bloom; entry_count = f.entry_count })

unfoldable pub open_sstable : Bytes → Option Reader
open_sstable file = do
  f ← read_footer file
  if f.magic == sst_magic then load_bloom file f else none

-- One round of the two reading loops; `none` ends them.
unfoldable pub read_entry : Bytes → Option (MemEntry × Bytes)
read_entry bytes = do
  (key_len, r1) ← read_uint32 bytes
  (key, r2) ← read_full key_len r1
  (val_len, r3) ← read_uint32 r2
  (val, r4) ← read_full val_len r3
  (kind, r5) ← read_full 1 r4
  elim kind [
    | [] ↦ none
    | b ∷ _ ↦ some (record { key = key; value = val; kind = entry_kind b; seq = 0 }, r5)
  ]

-- The loop of Get. It does not stop at the end of the data block.
unfoldable pub scan_for : ℕ → Bytes → Bytes → Option (Bytes × EntryKind)
scan_for zero key bytes = none
scan_for (suc fuel) key bytes = elim (read_entry bytes) [
  | none ↦ none
  | some (e, rest) ↦
      let later = scan_for fuel key rest in
      if bytes_eq e.key key
      then some (e.value, e.kind)
      else if bytes_leb e.key key
      then later
      else none
]

-- SSTableReader.Get. An entry takes nine bytes at least, so that the size of the file is fuel enough.
unfoldable pub get : Bytes → Reader → Option (Bytes × EntryKind)
get key r = if might_contain key r.bloom then scan_for (length r.file) key r.file else none

-- The int64 that bounds the loop of IterateAll, with 0 for a negative one.
unfoldable pub loop_bound : ℕ → ℕ
loop_bound offset = if ltb offset (2 ^ 63) then offset else 0

unfoldable pub entry_size : MemEntry → ℕ
entry_size e = 4 + length e.key + 4 + length e.value + 1

unfoldable pub iterate_loop : ℕ → ℕ → ℕ → Bytes → List MemEntry
iterate_loop zero pos bound bytes = []
iterate_loop (suc fuel) pos bound bytes = elim (read_entry bytes) [
  | none ↦ []
  | some (e, rest) ↦
      let later = iterate_loop fuel (pos + entry_size e) bound rest in
      if ltb pos bound then e ∷ later else []
]

unfoldable pub iterate_all : Reader → Option (List MemEntry)
iterate_all r = do
  f ← read_footer r.file
  some (iterate_loop (length r.file) 0 (loop_bound f.bloom_offset) r.file)

-- The files as the engine uses them: a table is written and opened at once.
abbrev pub sstable_files : ℕ → Sstables Reader
sstable_files capacity = record {
  write = λ es. (do file ← write capacity es; open_sstable file);
  lookup = get;
  iterate_all = iterate_all;
}
