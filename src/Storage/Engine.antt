-- ===== src/Storage/Engine.antt =====
-- storage/engine.go and the Snapshot and LoadSnapshot of storage/snapshot.go: the engine's layers. A
-- table file stands behind the interface `Sstables`: what Write followed by OpenSSTable, Get and
-- IterateAll of storage/sstable.go do. File names, and the counter that they come from, are left out.
pub mod View
use distributed_key_value_st.Base.{
  prefer, ℕ, zero, suc, ◌+◌, Bool, true, false, List, [], ◌∷◌, ◌++◌, Option, none, some, ltb, leb,
  ◌==◌, not, if◌then◌else◌, length, Bytes, ◌>>=◌,
}
use distributed_key_value_st.Storage.Memtable.{
  EntryKind, MemEntry, kind_put, kind_delete, Memtable, new_memtable, put as memtable_put,
  delete as memtable_delete, get as memtable_get, should_flush,
}
use distributed_key_value_st.Storage.Merge.{merge_entries}
use distributed_key_value_st.Storage.Codec.{encode_snapshot, decode_snapshot}

-- `none` is an error, and for `lookup` a key that is not found.
pub record Sstables (T : Type 0) : Type 0 where
  pub write : List MemEntry → Option T
  pub lookup : Bytes → T → Option (Bytes × EntryKind)
  pub iterate_all : T → Option (List MemEntry)

-- The two signal channels hold one signal at most.
pub record Engine (T : Type 0) : Type 0 where
  pub active : Memtable
  pub immutable : Option Memtable
  pub sstables : List T
  pub flush_signal : Bool
  pub compact_signal : Bool
  pub closed : Bool

abbrev pub compaction_threshold : ℕ
compaction_threshold = 8

-- LoadSnapshot's loop.
unfoldable pub put_all : List MemEntry → Memtable → Memtable
put_all [] m = m
put_all (e ∷ es) m = put_all es (memtable_put e.key e.value m)

module _ {T : Type 0} where
  -- Open, on the tables that loadSSTables finds, newest first.
  unfoldable pub open_engine : List T → Engine T
  open_engine tables = record {
    active = new_memtable;
    immutable = none;
    sstables = tables;
    flush_signal = false;
    compact_signal = false;
    closed = false;
  }

  -- The flag is false for the error of a closed engine.
  unfoldable pub put : Bytes → Bytes → Engine T → Bool × Engine T
  put key value e =
      if e.closed
      then (false, e)
      else (let active = memtable_put key value e.active in
          (
            true,
            record e {
              active = active;
              flush_signal = if should_flush active then true else e.flush_signal;
            },
          ))

  unfoldable pub delete : Bytes → Engine T → Bool × Engine T
  delete key e =
      if e.closed then (false, e) else (true, record e { active = memtable_delete key e.active })

unfoldable pub get_immutable : Bytes → Option Memtable → Option Bytes
get_immutable key none = none
get_immutable key (some m) = memtable_get key m

module _ {T : Type 0} ⦃files : Sstables T⦄ where
  -- The loop of Get over the tables, newest first: the first that has the key answers.
  unfoldable pub get_from : Bytes → List T → Option Bytes
  get_from key [] = none
  get_from key (t ∷ ts) =
      let older = get_from key ts in
      elim (files.lookup key t) [
        | none ↦ older
        | some (value, kind) ↦ elim kind [ kind_delete ↦ none | kind_put ↦ some value ]
      ]

  unfoldable pub get : Bytes → Engine T → Option Bytes
  get key e =
      prefer (memtable_get key e.active)
        (prefer (get_immutable key e.immutable) (get_from key e.sstables))

  -- A failed write or open leaves the immutable memtable in place.
  unfoldable pub do_flush : Engine T → Engine T
  do_flush e = elim e.immutable [
    | none ↦ e
    | some m ↦ if m.size == 0 then e else (elim (files.write m.entries) [
      | none ↦ e
      | some t ↦ record e { sstables = t ∷ e.sstables; immutable = none }
    ])
  ]

  unfoldable pub rotate_and_flush : Engine T → Engine T
  rotate_and_flush e = elim e.immutable [
    | some m ↦ e
    | none ↦
        let e' : Engine T =
          do_flush (record e { immutable = some e.active; active = new_memtable }) in
        if leb compaction_threshold (length e'.sstables)
        then record e' { compact_signal = true }
        else e'
  ]

  -- flushWorker: one signal taken.
  unfoldable pub flush_worker : Engine T → Engine T
  flush_worker e =
      if e.flush_signal then rotate_and_flush (record e { flush_signal = false }) else e

  -- The entries of the tables, oldest first.
  unfoldable pub read_all : List T → Option (List (List MemEntry))
  read_all [] = some []
  read_all (t ∷ ts) = do
    older ← read_all ts
    entries ← files.iterate_all t
    some (older ++ entries ∷ [])

  -- doCompaction up to the swap: the tables as they are now are merged into a new one.
  unfoldable pub begin_compaction : Engine T → Option T
  begin_compaction e =
      if ltb (length e.sstables) 2
      then none
      else do inputs ← read_all e.sstables; files.write (merge_entries inputs)

  -- The swap, on whatever the engine has become meanwhile.
  unfoldable pub end_compaction : T → Engine T → Engine T
  end_compaction t e = record e { sstables = t ∷ [] }

  -- Without anything in between.
  unfoldable pub do_compaction : Engine T → Engine T
  do_compaction e = elim (begin_compaction e) [ none ↦ e | some t ↦ end_compaction t e ]

  -- What Close and LoadSnapshot do to flush at once.
  unfoldable pub flush_now : Engine T → Engine T
  flush_now e = do_flush (
      if ltb 0 e.active.size
      then record e { immutable = some e.active; active = new_memtable }
      else e)

  unfoldable pub close : Engine T → Engine T
  close e = if e.closed then e else flush_now (record e { closed = true })

  -- The inputs of Snapshot's merge: what is read from the tables, then the memtables.
  unfoldable pub layers : List (List MemEntry) → Engine T → List (List MemEntry)
  layers tables e = tables ++ elim e.immutable [
    | none ↦ e.active.entries ∷ []
    | some m ↦ m.entries ∷ e.active.entries ∷ []
  ]

  unfoldable pub snapshot : Engine T → Option Bytes
  snapshot e = do
    tables ← read_all e.sstables
    some (encode_snapshot (merge_entries (layers tables e)))

  -- `none` is an error, which leaves the engine as it is.
  unfoldable pub load_snapshot : Bytes → Engine T → Option (Engine T)
  load_snapshot blob e = do
    entries ← decode_snapshot blob
    some (
        flush_now
          (record e { sstables = []; active = put_all entries new_memtable; immutable = none }))
