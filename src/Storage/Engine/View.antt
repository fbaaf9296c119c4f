-- ===== src/Storage/Engine/View.antt =====
-- What the engine's layers stand for: a map in which the newest layer that has a key decides.
pub mod Writes
pub mod Reads
pub mod Snapshots
pub mod Restore
pub mod Stuck
pub mod Flush
pub mod Compact
use distributed_key_value_st.Base.{
  prefer, ℕ, zero, suc, ◌+◌, ◌≡◌, refl, sym, ap, ◌∙◌, Bool, true, false, List, [], ◌∷◌, ◌++◌, map,
  Option, none, some, if◌then◌else◌, Bytes, bytes_eq,
}
use distributed_key_value_st.Storage.Memtable.{EntryKind, MemEntry, kind_put, kind_delete, Memtable}
use distributed_key_value_st.Storage.Memtable.Order.{Sorted, find}
use distributed_key_value_st.Storage.Memtable.Lookup.{answer}
use distributed_key_value_st.Storage.Engine.{Engine, Sstables}

-- What a file keeps of an entry.
abbrev pub filed : MemEntry → MemEntry
filed e = record { key = e.key; value = e.value; kind = e.kind; seq = 0 }

abbrev pub found : Option MemEntry → Option (Bytes × EntryKind)
found none = none
found (some e) = some (e.value, e.kind)

-- A tombstone is no value.
abbrev pub value_of : Option (Bytes × EntryKind) → Option Bytes
value_of none = none
value_of (some (value, kind_put)) = some value
value_of (some (value, kind_delete)) = none

-- The value and kind that a sorted list has for a key.
abbrev pub in_list : Bytes → List MemEntry → Option (Bytes × EntryKind)
in_list key es = found (find key es)

-- What the engine needs of table files: a written table holds its entries, IterateAll reads what a
-- table holds, and Get finds an entry by its key in a sorted table, if the table can be trusted with
-- the key. When it can is for the table files to say.
pub record TableLaws {T : Type 0} (files : Sstables T) : Type 1 where
  pub contents : T → List MemEntry
  pub written :
      (es : List MemEntry) (t : T) → Sorted es → files.write es ≡ some t → contents t ≡ map filed es
  pub iterated : (t : T) (es : List MemEntry) → files.iterate_all t ≡ some es → es ≡ contents t
  pub Trusted : Bytes → T → Type 0
  pub looked_up :
      (key : Bytes) (t : T)
      → Trusted key t
      → Sorted (contents t)
      → files.lookup key t ≡ in_list key (contents t)

module _ {T : Type 0} {files : Sstables T} (laws : TableLaws files) where
  -- The newest value and kind for a key in the tables, newest first.
  abbrev pub in_tables : Bytes → List T → Option (Bytes × EntryKind)
  in_tables key [] = none
  in_tables key (t ∷ ts) = prefer (in_list key (laws.contents t)) (in_tables key ts)

  abbrev pub in_immutable : Bytes → Option Memtable → Option (Bytes × EntryKind)
  in_immutable key none = none
  in_immutable key (some m) = in_list key m.entries

  -- The value that the engine stands for: that of the newest layer which has the key, and none if it
  -- has a tombstone there.
  abbrev pub view : Bytes → Engine T → Option Bytes
  view key e = value_of (
      prefer (in_list key e.active.entries)
        (prefer (in_immutable key e.immutable) (in_tables key e.sstables)))

  -- Every table can be trusted with the key.
  abbrev pub AllTrusted : Bytes → List T → Type 0
  AllTrusted key [] = Unit {0}
  AllTrusted key (t ∷ ts) = laws.Trusted key t × AllTrusted key ts

  abbrev pub AllTablesSorted : List T → Type 0
  AllTablesSorted [] = Unit {0}
  AllTablesSorted (t ∷ ts) = Sorted (laws.contents t) × AllTablesSorted ts

  abbrev pub ImmutableSorted : Option Memtable → Type 0
  ImmutableSorted none = Unit {0}
  ImmutableSorted (some m) = Sorted m.entries

  -- Every layer is sorted.
  pub record WellFormed (e : Engine T) : Type 0 where
    pub active : Sorted e.active.entries
    pub immutable : ImmutableSorted e.immutable
    pub sstables : AllTablesSorted e.sstables
