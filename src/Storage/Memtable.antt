-- ===== src/Storage/Memtable.antt =====
-- storage/memtable.go: the sorted write buffer.
pub mod Order
pub mod Lookup
pub mod Refine
use distributed_key_value_st.Base.{
  ℕ, zero, suc, ◌+◌, ◌*◌, Bool, true, false, List, [], ◌∷◌, ◌++◌, Option, none, some, leb,
  if◌then◌else◌, length, get_elem?, take, drop, Bytes, bytes_leb, bytes_eq,
}
use distributed_key_value_st.Storage.Search.{search}

pub data EntryKind : Type 0 where
  kind_put kind_delete : EntryKind

pub record MemEntry : Type 0 where
  pub key : Bytes
  pub value : Bytes
  pub kind : EntryKind
  pub seq : ℕ

pub record Memtable : Type 0 where
  pub entries : List MemEntry
  pub size : ℕ
  pub seq : ℕ

abbrev pub max_memtable_size : ℕ
max_memtable_size = 4 * 1024 * 1024

abbrev pub new_memtable : Memtable
new_memtable = record { entries = []; size = 0; seq = 0 }

-- The test that is handed to sort.Search: `entries[i].key >= key`.
unfoldable pub not_before : Bytes → List MemEntry → ℕ → Bool
not_before key es i = elim (get_elem? es i) [ none ↦ true | some e ↦ bytes_leb key e.key ]

unfoldable pub position : Bytes → List MemEntry → ℕ
position key es = search (length es) (not_before key es)

-- The entry at the position of a key, if it is there and has that key.
unfoldable pub entry_at : Bytes → ℕ → List MemEntry → Option MemEntry
entry_at key idx es = elim (get_elem? es idx) [
  | none ↦ none
  | some e ↦ if bytes_eq e.key key then some e else none
]

-- insert from where the position is known.
unfoldable pub insert_at : ℕ → MemEntry → List MemEntry → List MemEntry
insert_at idx e es = elim (entry_at e.key idx es) [
  | some old ↦ take idx es ++ e ∷ drop (suc idx) es
  | none ↦ take idx es ++ e ∷ drop idx es
]

unfoldable pub insert : MemEntry → List MemEntry → List MemEntry
insert e es = insert_at (position e.key es) e es

unfoldable pub put : Bytes → Bytes → Memtable → Memtable
put key value m = record {
  entries =
      insert (record { key = key; value = value; kind = kind_put; seq = m.seq + 1 }) m.entries;
  size = m.size + length key + length value + 16;
  seq = m.seq + 1;
}

unfoldable pub delete : Bytes → Memtable → Memtable
delete key m = record {
  entries =
      insert (record { key = key; value = []; kind = kind_delete; seq = m.seq + 1 }) m.entries;
  size = m.size + length key + 16;
  seq = m.seq + 1;
}

-- `none` stands for `(nil, false)`.
unfoldable pub get : Bytes → Memtable → Option Bytes
get key m = elim (entry_at key (position key m.entries) m.entries) [
  | none ↦ none
  | some e ↦ elim e.kind [ kind_delete ↦ none | kind_put ↦ some e.value ]
]

unfoldable pub should_flush : Memtable → Bool
should_flush m = leb max_memtable_size m.size
