-- ===== src/Storage/Sstable/Laws.antt =====
-- storage/sstable.go: the table files as the engine needs them, and where Get goes wrong.
use distributed_key_value_st.Storage.Sstable.Records.{write_entries-Fits, write_entries-count}
use distributed_key_value_st.Storage.Engine.View.Flush.{in_list-filed}
use distributed_key_value_st.Storage.Sstable.Bloom.{new_bloom, add_all, might_contain}
use distributed_key_value_st.Storage.Sstable.Scan.{scan_for-Past, Past}
use distributed_key_value_st.Storage.Sstable.Files.{
  write-room, length-file_of, iterate_all-reader_of, get-reader_of, Settled, written-reader_of,
  reader_of, file_of,
}
use distributed_key_value_st.Storage.Engine.View.{in_list, filed, TableLaws}
use distributed_key_value_st.Storage.Memtable.Order.{Sorted}
use distributed_key_value_st.Storage.Memtable.{MemEntry}
use distributed_key_value_st.Base.{
  ◌≤◌, refl, ap, arith, [], ◌+◌, none, ◌++◌, ◌-◌, true, sym, ◌∙◌, map, some, length, ◌≡◌, ◌<◌, List,
  ℕ, Bytes,
}
use distributed_key_value_st.Storage.Sstable.{
  write_entries, footer, scan_for, sstable_files, iterate_all, Reader, get,
}

-- Get is right for any key that the filter denies or that some key of the table is not below: it
-- answers with the value and the kind that the sorted entries have for the key, or finds nothing. The
-- table was written and opened, in a file of less than 4 GiB.
pub get-Settled :
    (capacity : ℕ) (es : List MemEntry) (t : Reader) (key : Bytes)
    → capacity < 4294967296
    → Sorted es
    → ((sstable_files capacity).write es ≡ some t)
    → Settled key es
    → get key t ≡ in_list key es
get-Settled capacity es t key c s h settled =
    let (same, small) = written-reader_of capacity es t c h in
    rw same (get-reader_of key es small s settled)

-- What is written is read back: on a disk with room for the file, below 4 GiB, Write succeeds and the
-- file opens, its reader counts the entries, and IterateAll gives all of them in order, with their
-- keys, values and kinds.
pub write_then_iterate :
    (capacity : ℕ) (es : List MemEntry)
    → length (file_of es) ≤ capacity
    → capacity < 4294967296
    → (t : Reader) × ((sstable_files capacity).write es ≡ some t)
      × (t.entry_count ≡ length es)
      × (iterate_all t ≡ some (map filed es))
write_then_iterate capacity es room c = (
  reader_of es,
  write-room capacity es room c,
  refl,
  iterate_all-reader_of es (omega (arith, room, c)),
)

-- A key above every key of the table that the filter does not deny is looked for in the filter and
-- the footer behind the entries: Get answers with what it finds there. The file is shorter than
-- 2 ^ 32 bytes.
pub get-Past :
    (key : Bytes) (es : List MemEntry)
    → length (file_of es) < 4294967296
    → Past key es
    → might_contain key (add_all es new_bloom) ≡ true
    → get key (reader_of es)
      ≡ scan_for
          (length (file_of es) - length es)
          key
          (add_all es new_bloom ++ footer (length (write_entries es)) (length es))
unfolding get
get-Past key es h past maybe =
    let size = length-file_of es in
    let tail = add_all es new_bloom ++ footer (length (write_entries es)) (length es) in
    let fuel : length (file_of es) ≡ length es + (length (file_of es) - length es) =
      omega (arith, size, write_entries-count es) in
    rw maybe (
      ap (λ n. scan_for n key (write_entries es ++ tail)) fuel
      ∙ scan_for-Past key es tail (length (file_of es) - length es)
          (write_entries-Fits es (omega (arith, size, h))) past)

-- What a table holds for the engine.
abbrev held : Reader → List MemEntry
held t = elim (iterate_all t) [ none ↦ [] | some es ↦ es ]

held-reader_of :
    (es : List MemEntry) → length (file_of es) < 4294967296 → held (reader_of es) ≡ map filed es
held-reader_of es h = rw (iterate_all-reader_of es h, held) refl

-- The table was written from sorted entries that settle the key.
abbrev pub WrittenFor : Bytes → Reader → Type 0
WrittenFor key t =
    (es : List MemEntry) × (t ≡ reader_of es)
    × (length (file_of es) < 4294967296)
    × Sorted es
    × Settled key es

-- The table files keep the engine's laws on a disk that has room for less than 4 GiB a file: a table
-- holds what was written, IterateAll reads all of it, and Get finds the entry of a key in a table that
-- was written from sorted entries and settles the key.
pub sstable_files-TableLaws :
    (capacity : ℕ) → capacity < 4294967296 → TableLaws (sstable_files capacity)
sstable_files-TableLaws capacity c = record {
  contents = held;
  written = λ es t s h.
      let (same, small) = written-reader_of capacity es t c h in rw same (held-reader_of es small);
  iterated = λ t es h. rw (h, held) refl;
  Trusted = WrittenFor;
  looked_up = λ key t w s.
      let (es, same, small, sorted, settled) = w in
      rw (same, held-reader_of es small)
        (get-reader_of key es small sorted settled ∙ sym (in_list-filed key es));
}
