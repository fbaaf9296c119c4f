-- ===== src/Storage/Tests.antt =====
-- The theorems of the package storage at concrete tables and engines, with a table file that is the
-- list of its entries.
pub mod Engines
mod Files
use distributed_key_value_st.Base.{
  ◌≡◌, refl, sym, true, false, List, [], ◌∷◌, map, none, some, if◌then◌else◌, Bytes, bytes_eq,
  bytes_leb, arith,
}
use distributed_key_value_st.Storage.Memtable.{
  Memtable, MemEntry, kind_put, kind_delete, new_memtable, position, get as memtable_get,
}
use distributed_key_value_st.Storage.Memtable.Order.{Sorted, find, scan, position-scan}
use distributed_key_value_st.Storage.Memtable.Refine.{
  Write, putting, deleting, written, latest, written-get,
}
use distributed_key_value_st.Storage.Codec.{encode_snapshot, decode_snapshot}
use distributed_key_value_st.Storage.Codec.RoundTrip.{Fits, restored, decode_snapshot-encode}
use distributed_key_value_st.Storage.Merge.{
  merge_entries, merge_loop, min_head, newest_head, advance, smaller, sort_entries, sort_insert,
}
use distributed_key_value_st.Storage.Merge.Heads.{newest}
use distributed_key_value_st.Storage.Merge.Newest.{live, merge_entries-newest}
use distributed_key_value_st.Storage.Engine.{
  Engine, Sstables, read_all, layers, put, delete, get, do_flush, flush_worker, begin_compaction,
  end_compaction, snapshot, load_snapshot,
}
use distributed_key_value_st.Storage.Engine.View.{
  filed, in_list, TableLaws, in_tables, view, WellFormed,
}
use distributed_key_value_st.Storage.Engine.View.Writes.{put-view, delete-view}
use distributed_key_value_st.Storage.Engine.View.Reads.{
  get-view, put_then_get, deleted_key_comes_back,
}
use distributed_key_value_st.Storage.Engine.View.Flush.{Same, do_flush-Same, flush_worker-Same}
use distributed_key_value_st.Storage.Engine.View.Compact.{
  end_compaction-Same, compaction_loses_flush,
}
use distributed_key_value_st.Storage.Engine.{close}
use distributed_key_value_st.Storage.Engine.View.Stuck.{
  Event, putting as writing, flushing as cycle, steps, unflushed_blocks, close_drops_immutable,
}
use distributed_key_value_st.Storage.Engine.View.Restore.{load_snapshot-snapshot}

abbrev pub a : Bytes
a = 97 ∷ []

abbrev pub b : Bytes
b = 98 ∷ []

abbrev pub live_entry : Bytes → Bytes → MemEntry
live_entry k v = record { key = k; value = v; kind = kind_put; seq = 0 }

abbrev pub tombstone : Bytes → MemEntry
tombstone k = record { key = k; value = []; kind = kind_delete; seq = 0 }

abbrev pub two : List MemEntry
two = live_entry a (1 ∷ []) ∷ live_entry b (2 ∷ []) ∷ []

pub two-Sorted : Sorted two
unfolding bytes_leb
two-Sorted = ((refl, tt), (tt, tt))

abbrev writes : List Write
writes = deleting a ∷ putting b (2 ∷ []) ∷ putting a (1 ∷ []) ∷ []

written-get_example :
    Sorted (written writes).entries × (memtable_get b (written writes) ≡ latest b writes)
written-get_example = written-get b writes

-- A newer input that deletes a.
abbrev inputs : List (List MemEntry)
inputs = two ∷ (tombstone a ∷ []) ∷ []

merge_entries-newest_example :
    Sorted (merge_entries inputs) × (find a (merge_entries inputs) ≡ live (newest a inputs))
merge_entries-newest_example = merge_entries-newest inputs a (two-Sorted, ((tt, tt), tt))

instance abbrev pub listed : Sstables (List MemEntry)
listed = record {
  write = λ es. some (map filed es);
  lookup = λ key t. in_list key t;
  iterate_all = λ t. some t;
}

some_injective : (x y : List MemEntry) → some x ≡ some y → x ≡ y
some_injective x y h = ground (arith, h)

pub listed-TableLaws : TableLaws listed
listed-TableLaws = record {
  contents = λ t. t;
  written = λ es t s h. sym (some_injective (map filed es) t h);
  iterated = λ t es h. sym (some_injective t es h);
  Trusted = λ key t. Unit {0};
  looked_up = λ key t trusted s. refl;
}

-- Two tables, and a memtable that waits to be flushed.
abbrev pub engine : Engine (List MemEntry)
engine = record {
  active = new_memtable;
  immutable = none;
  sstables = two ∷ (live_entry a (9 ∷ []) ∷ []) ∷ [];
  flush_signal = true;
  compact_signal = false;
  closed = false;
}

abbrev pub flushing : Engine (List MemEntry)
flushing = record engine { immutable = some (record { entries = two; size = 36; seq = 2 }) }

pub engine-WellFormed : WellFormed listed-TableLaws engine
unfolding listed-TableLaws
engine-WellFormed = record { active = tt; immutable = tt; sstables = (two-Sorted, ((tt, tt), tt)) }

pub flushing-WellFormed : WellFormed listed-TableLaws flushing
unfolding listed-TableLaws
flushing-WellFormed = record {
  active = tt;
  immutable = two-Sorted;
  sstables = (two-Sorted, ((tt, tt), tt));
}
