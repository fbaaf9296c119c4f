-- ===== src/Storage/Sstable/Files.antt =====
-- storage/sstable.go: opening, reading and searching a table file that Write has written.
use distributed_key_value_st.Storage.Sstable.Records.{write_entries-count, write_entries-Fits}
use distributed_key_value_st.Storage.Codec.Words.{
  read_full-append, read_uint32-put_uint32, read_uint64-put_uint64,
}
use distributed_key_value_st.Storage.Sstable.Scan.{
  iterate_loop-write_entries, scan_for-Reaches, Reaches,
}
use distributed_key_value_st.Storage.Memtable.Order.{find, Sorted}
use distributed_key_value_st.Storage.Sstable.Filter.{
  might_contain-find, new_bloom-length, add_all-length,
}
use distributed_key_value_st.Storage.Engine.View.{filed, in_list}
use distributed_key_value_st.Storage.Sstable.Bloom.{bloom_size, might_contain, new_bloom, add_all}
use distributed_key_value_st.Storage.Codec.{read_full, read_uint32, put_uint32, put_uint64}
use distributed_key_value_st.Storage.Memtable.{MemEntry}
use distributed_key_value_st.Storage.Sstable.{
  sstable_files, get, loop_bound, load_bloom, iterate_all, open_sstable, sst_magic, Reader,
  write_entries, write, footer, read_footer,
}
use distributed_key_value_st.Base.{
  Option-cases, ◌∙◌, inr, append_assoc, none, append-nil, map, ◌⊎◌, sym, [], drop-append, inl, ap,
  ◌+◌, ◌-◌, Bool-cases, false, ltb, length-append, arith, ◌≤◌, refl, some, ◌++◌, length, ◌<◌, ◌≡◌,
  ℕ, List, Bytes,
}

-- The content of the file that Write makes.
abbrev pub file_of : List MemEntry → Bytes
file_of es =
    write_entries es ++ (add_all es new_bloom ++ footer (length (write_entries es)) (length es))

abbrev pub reader_of : List MemEntry → Reader
reader_of es = record { file = file_of es; bloom = add_all es new_bloom; entry_count = length es }

length-footer : (offset count : ℕ) → length (footer offset count) ≡ 24
unfolding footer put_uint64 put_uint32
length-footer offset count = refl

read_last : (n : ℕ) → n < 4294967296 → read_uint32 (put_uint32 n) ≡ some (n, [])
read_last n h = ap read_uint32 (sym (append-nil (put_uint32 n))) ∙ read_uint32-put_uint32 n [] h

read_footer-written :
    (front : Bytes) (offset count : ℕ)
    → offset < 18446744073709551616
    → count < 4294967296
    → read_footer (front ++ footer offset count)
      ≡ some (record { bloom_offset = offset; entry_count = count; magic = sst_magic })
unfolding read_footer footer
read_footer-written front offset count ho hc =
    let size = length-append front (footer offset count) in
    let foot = length-footer offset count in
    let enough : ltb (length (front ++ footer offset count)) 24 ≡ false =
      ground (arith, size, foot) in
    let start : length (front ++ footer offset count) - 24 ≡ length front =
      omega (arith, size, foot) in
    let counted = put_uint32 count ++ put_uint32 sst_magic in
    rw
      (
        enough,
        start,
        drop-append front (footer offset count),
        read_uint64-put_uint64 offset (put_uint64 bloom_size ++ counted) ho,
        read_uint64-put_uint64 bloom_size counted (omega arith),
        read_uint32-put_uint32 count (put_uint32 sst_magic) hc,
        read_last sst_magic (omega arith),
      )
      refl

pub length-file_of : (es : List MemEntry) → length (file_of es) ≡ length (write_entries es) + 1048
length-file_of es = omega (
  arith,
  length-append (write_entries es)
      (add_all es new_bloom ++ footer (length (write_entries es)) (length es)),
  length-append (add_all es new_bloom) (footer (length (write_entries es)) (length es)),
  length-footer (length (write_entries es)) (length es),
  add_all-length es new_bloom,
  new_bloom-length,
)

pub read_footer-file_of :
    (es : List MemEntry)
    → length (file_of es) < 4294967296
    → read_footer (file_of es)
      ≡ some (record {
        bloom_offset = length (write_entries es);
        entry_count = length es;
        magic = sst_magic;
      })
read_footer-file_of es h =
    let size = length-file_of es in
    let block = write_entries es in
    let bits = add_all es new_bloom in
    ap read_footer (sym (append_assoc block bits (footer (length block) (length es))))
    ∙ read_footer-written (block ++ bits) (length block) (length es) (omega (arith, size, h))
        (omega (arith, size, h, write_entries-count es))

-- Write and then OpenSSTable, when the disk has room: the entries are counted and the filter is that
-- of their keys.
pub open_sstable-file_of :
    (es : List MemEntry)
    → length (file_of es) < 4294967296
    → open_sstable (file_of es) ≡ some (reader_of es)
unfolding open_sstable load_bloom
open_sstable-file_of es h =
    let block = write_entries es in
    let bits = add_all es new_bloom in
    let tail = footer (length block) (length es) in
    let full : bloom_size ≡ length bits = sym (add_all-length es new_bloom ∙ new_bloom-length) in
    let loaded : read_full bloom_size (bits ++ tail) ≡ some (bits, tail) =
      ap (λ n. read_full n (bits ++ tail)) full ∙ read_full-append bits tail in
    rw (read_footer-file_of es h, drop-append block (bits ++ tail), loaded) refl

-- IterateAll gives back what was written.
pub iterate_all-reader_of :
    (es : List MemEntry)
    → length (file_of es) < 4294967296
    → iterate_all (reader_of es) ≡ some (map filed es)
unfolding iterate_all loop_bound
iterate_all-reader_of es h =
    let size = length-file_of es in
    let block = write_entries es in
    let bound : loop_bound (length block) ≡ length block = ground (arith, size, h) in
    rw
      (
        read_footer-file_of es h,
        bound,
        iterate_loop-write_entries es (add_all es new_bloom ++ footer (length block) (length es))
            (length (file_of es)) 0 (length block) (write_entries-Fits es (omega (arith, size, h)))
            (omega (arith, size, write_entries-count es)) (omega arith),
      )
      refl

-- The filter denies the key, or the table has a key that is not below it.
abbrev pub Settled : Bytes → List MemEntry → Type 0
Settled key es = (might_contain key (add_all es new_bloom) ≡ false) ⊎ Reaches key es

denied :
    (key : Bytes) (es : List MemEntry)
    → might_contain key (add_all es new_bloom) ≡ false
    → in_list key es ≡ none
denied key es h = elim (Option-cases (find key es)) [
  | inl n ↦ rw n refl
  | inr (e, n) ↦ let there = might_contain-find key es e n in absurd (cc (h, there))
]

pub get-reader_of :
    (key : Bytes) (es : List MemEntry)
    → length (file_of es) < 4294967296
    → Sorted es
    → Settled key es
    → get key (reader_of es) ≡ in_list key es
unfolding get
get-reader_of key es h s (inl absent) = rw (absent, denied key es absent) refl
get-reader_of key es h s (inr r) =
    let size = length-file_of es in
    let tail = add_all es new_bloom ++ footer (length (write_entries es)) (length es) in
    let scanned =
      scan_for-Reaches key es tail (length (file_of es))
        (write_entries-Fits es (omega (arith, size, h)))
        (omega (arith, size, write_entries-count es)) s r in
    elim (Bool-cases (might_contain key (add_all es new_bloom))) [
      | inl t ↦ rw t scanned
      | inr absent ↦ rw (absent, denied key es absent) refl
    ]

-- Write makes this file or fails.
pub write-file_of :
    (capacity : ℕ) (es : List MemEntry) (file : Bytes)
    → write capacity es ≡ some file
    → (file ≡ file_of es) × (length (file_of es) ≤ capacity)
unfolding write
write-file_of capacity es file h = elim (Bool-cases (ltb capacity (length (file_of es)))) [
  | inl t ↦ ground (arith, t, h)
  | inr f ↦ ground (arith, f, h)
]

-- The same for the write of the engine, which opens the file.
pub written-reader_of :
    (capacity : ℕ) (es : List MemEntry) (t : Reader)
    → capacity < 4294967296
    → ((sstable_files capacity).write es ≡ some t)
    → (t ≡ reader_of es) × (length (file_of es) < 4294967296)
written-reader_of capacity es t c h = elim (Option-cases (write capacity es)) [
  | inl n ↦ ground (arith, n, h)
  | inr (file, n) ↦
      let (same, room) = write-file_of capacity es file n in
      let small : length (file_of es) < 4294967296 = omega (arith, room, c) in
      let opened = open_sstable-file_of es small in
      let found_ : some (reader_of es) ≡ some t =
        sym opened ∙ (ap open_sstable (sym same) ∙ reopened file n) in
      (ground (arith, found_), small)
]
  where
    reopened : (file : Bytes) → write capacity es ≡ some file → open_sstable file ≡ some t
    reopened file n = ground (arith, n, h)

-- A disk with room for the file is enough.
pub write-room :
    (capacity : ℕ) (es : List MemEntry)
    → length (file_of es) ≤ capacity
    → capacity < 4294967296
    → ((sstable_files capacity).write es ≡ some (reader_of es))
unfolding write
write-room capacity es room c =
    let fits : ltb capacity (length (file_of es)) ≡ false = ground arith in
    rw fits (open_sstable-file_of es (omega (arith, room, c)))
