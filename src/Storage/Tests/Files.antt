-- ===== src/Storage/Tests/Files.antt =====
-- The theorems about table files.
use distributed_key_value_st.Storage.Codec.{put_uint64, read_full, read_uint32, put_uint32}
use distributed_key_value_st.Storage.Sstable.Laws.{get-Past, write_then_iterate, get-Settled}
use distributed_key_value_st.Storage.Engine.View.{filed, in_list}
use distributed_key_value_st.Storage.Sstable.Scan.{Past}
use distributed_key_value_st.Storage.Memtable.{kind_put, MemEntry}
use distributed_key_value_st.Storage.Sstable.Files.{
  length-file_of, write-room, file_of, reader_of, Settled,
}
use distributed_key_value_st.Base.{
  bytes_eq, ◌≤◌, ◌<◌, ◌++◌, map, ◌-◌, arith, true, inl, some, length, refl, inr, [], ◌≡◌, bytes_leb,
  List, ◌∷◌, ℕ,
}
use distributed_key_value_st.Storage.Sstable.Bloom.{
  fnv32a, hash, zeros, set_bit, add_hashes, add, bit_at, check_hashes, new_bloom, add_all,
  might_contain,
}
use distributed_key_value_st.Storage.Tests.{
  in_list, MemEntry, List, ◌∷◌, bytes_leb, a, live_entry, two, two-Sorted,
}
use distributed_key_value_st.Storage.Sstable.{
  kind_byte, entry_kind, read_entry, write_entries, footer, sstable_files, iterate_all, scan_for,
  Reader, get,
}

abbrev disk : ℕ
disk = 65536

two_room : length (file_of two) ≤ disk
unfolding write_entries put_uint32
two_room = omega (arith, length-file_of two)

two_written : (sstable_files disk).write two ≡ some (reader_of two)
two_written = write-room disk two two_room (omega arith)

a-Settled : Settled a two
unfolding bytes_leb
a-Settled = inr (inl refl)

get-Settled_example : get a (reader_of two) ≡ in_list a two
get-Settled_example =
    get-Settled disk two (reader_of two) a (omega arith) two-Sorted two_written a-Settled

write_then_iterate_example :
    (t : Reader) × ((sstable_files disk).write two ≡ some t)
    × (t.entry_count ≡ length two)
    × (iterate_all t ≡ some (map filed two))
write_then_iterate_example = write_then_iterate disk two two_room (omega arith)

-- Seven keys below 1 ∷ [], whose flags in the filter make it look as if that key were there.
abbrev seven : List MemEntry
seven =
    live_entry (0 ∷ 64 ∷ 252 ∷ []) []
    ∷ live_entry (0 ∷ 67 ∷ 155 ∷ []) []
    ∷ live_entry (0 ∷ 82 ∷ 56 ∷ []) []
    ∷ live_entry (0 ∷ 101 ∷ 206 ∷ []) []
    ∷ live_entry (0 ∷ 140 ∷ 1 ∷ []) []
    ∷ live_entry (0 ∷ 201 ∷ 179 ∷ []) []
    ∷ live_entry (0 ∷ 249 ∷ 208 ∷ []) []
    ∷ []

seven-Past : Past (1 ∷ []) seven
unfolding bytes_leb
seven-Past = (refl, (refl, (refl, (refl, (refl, (refl, (refl, tt)))))))

seven_maybe : might_contain (1 ∷ []) (add_all seven new_bloom) ≡ true
unfolding might_contain check_hashes bit_at add_all add add_hashes set_bit new_bloom zeros hash
    fnv32a
seven_maybe = refl

seven_small : length (file_of seven) < 4294967296
unfolding write_entries put_uint32
seven_small = omega (arith, length-file_of seven)

get-Past_example :
    get (1 ∷ []) (reader_of seven)
    ≡ scan_for
        (length (file_of seven) - length seven)
        (1 ∷ [])
        (add_all seven new_bloom ++ footer (length (write_entries seven)) (length seven))
get-Past_example = get-Past (1 ∷ []) seven seven_small seven-Past seven_maybe

-- The key that was never written is found, with an empty value.
false_hit : get (1 ∷ []) (reader_of seven) ≡ some ([], kind_put)
unfolding get scan_for read_entry read_uint32 read_full bytes_eq bytes_leb entry_kind kind_byte
    write_entries put_uint32 footer put_uint64 might_contain check_hashes bit_at add_all add
    add_hashes set_bit new_bloom zeros hash fnv32a
false_hit = refl
