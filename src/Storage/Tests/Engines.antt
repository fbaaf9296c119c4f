-- ===== src/Storage/Tests/Engines.antt =====
-- The theorems about an engine.
use distributed_key_value_st.Base.{
  ◌≡◌, refl, true, List, [], ◌∷◌, map, none, some, if◌then◌else◌, Bytes, bytes_eq, bytes_leb, arith,
}
use distributed_key_value_st.Storage.Memtable.{Memtable, MemEntry, kind_put}
use distributed_key_value_st.Storage.Codec.RoundTrip.{Fits}
use distributed_key_value_st.Storage.Merge.{
  merge_entries, merge_loop, min_head, newest_head, advance, smaller, sort_entries, sort_insert,
}
use distributed_key_value_st.Storage.Engine.{
  Engine, read_all, layers, put, delete, get, flush_worker, begin_compaction, end_compaction,
  snapshot, load_snapshot,
}
use distributed_key_value_st.Storage.Engine.View.{AllTrusted, filed, in_tables, view, WellFormed}
use distributed_key_value_st.Storage.Engine.View.Writes.{put-view}
use distributed_key_value_st.Storage.Engine.View.Reads.{get-view, deleted_key_comes_back}
use distributed_key_value_st.Storage.Engine.View.Flush.{Same, flush_worker-Same}
use distributed_key_value_st.Storage.Engine.View.Compact.{end_compaction-Same}
use distributed_key_value_st.Storage.Engine.View.Restore.{load_snapshot-snapshot}
use distributed_key_value_st.Storage.Tests.{
  a, b, live_entry, tombstone, two, two-Sorted, listed, listed-TableLaws, engine, flushing,
  engine-WellFormed,
}

put-view_example :
    ((put a (5 ∷ []) engine).0 ≡ true)
    × WellFormed listed-TableLaws (put a (5 ∷ []) engine).1
    × (view listed-TableLaws b (put a (5 ∷ []) engine).1
        ≡ (if bytes_eq a b then some (5 ∷ []) else view listed-TableLaws b engine))
put-view_example = put-view listed-TableLaws a (5 ∷ []) b engine refl engine-WellFormed

engine-AllTrusted : AllTrusted listed-TableLaws a engine.sstables
unfolding listed-TableLaws
engine-AllTrusted = (tt, (tt, tt))

get-view_example : get a engine ≡ view listed-TableLaws a engine
get-view_example = get-view listed-TableLaws a engine engine-AllTrusted engine-WellFormed tt tt

newest_a : in_tables listed-TableLaws a engine.sstables ≡ some (1 ∷ [], kind_put)
unfolding listed-TableLaws bytes_eq
newest_a = refl

deleted_key_comes_back_example :
    (get a (delete a engine).1 ≡ some (1 ∷ []))
    × (view listed-TableLaws a (delete a engine).1 ≡ none)
deleted_key_comes_back_example =
    deleted_key_comes_back listed-TableLaws a (1 ∷ []) engine refl engine-AllTrusted
      engine-WellFormed refl newest_a

flush_worker-Same_example : Same listed-TableLaws engine (flush_worker engine)
flush_worker-Same_example = flush_worker-Same listed-TableLaws engine engine-WellFormed

abbrev merged : List MemEntry
merged = map filed (merge_entries ((live_entry a (9 ∷ []) ∷ []) ∷ two ∷ []))

merging : begin_compaction flushing ≡ some merged
unfolding begin_compaction read_all
merging = refl

merging_idle : begin_compaction engine ≡ some merged
unfolding begin_compaction read_all
merging_idle = refl

end_compaction-Same_example : Same listed-TableLaws engine (end_compaction merged engine)
end_compaction-Same_example =
    end_compaction-Same listed-TableLaws engine merged engine-WellFormed merging_idle

abbrev waiting : Memtable
waiting = record { entries = two; size = 36; seq = 2 }

-- A write has gone into the active memtable meanwhile.
abbrev busy : Engine (List MemEntry)
busy = record flushing { active = record { entries = tombstone b ∷ []; size = 17; seq = 1 } }

busy-WellFormed : WellFormed listed-TableLaws busy
unfolding listed-TableLaws
busy-WellFormed = record {
  active = (tt, tt);
  immutable = two-Sorted;
  sstables = (two-Sorted, ((tt, tt), tt));
}

tables_read : read_all engine.sstables ≡ some ((live_entry a (9 ∷ []) ∷ []) ∷ two ∷ [])
unfolding read_all
tables_read = refl

fitting : Fits (merge_entries (layers ((live_entry a (9 ∷ []) ∷ []) ∷ two ∷ []) engine))
unfolding merge_entries merge_loop layers min_head newest_head advance smaller sort_entries
    sort_insert bytes_leb bytes_eq
fitting = ((omega arith, omega arith), ((omega arith, omega arith), tt))

load_snapshot-snapshot_example :
    (blob : Bytes) × (m : Engine (List MemEntry)) × (snapshot engine ≡ some blob)
    × (load_snapshot blob flushing ≡ some m)
    × WellFormed listed-TableLaws m
    × ((q : Bytes) → view listed-TableLaws q m ≡ view listed-TableLaws q engine)
load_snapshot-snapshot_example =
    load_snapshot-snapshot listed-TableLaws engine flushing _ engine-WellFormed tables_read fitting
