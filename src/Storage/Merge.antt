-- ===== src/Storage/Merge.antt =====
-- storage/sstable.go: MergeEntries. The position in each input is kept as the entries that are left
-- of it.
pub mod Heads
pub mod Rounds
pub mod Ordered
pub mod Newest
use distributed_key_value_st.Base.{
  ℕ, zero, suc, ◌+◌, Bool, true, false, List, [], ◌∷◌, map, Option, none, some, not, if◌then◌else◌,
  length, Bytes, bytes_leb, bytes_eq,
}
use distributed_key_value_st.Storage.Memtable.{MemEntry, EntryKind, kind_put, kind_delete}

-- `minInput == -1 || key < minKey`.
unfoldable pub smaller : Bytes → Option Bytes → Bool
smaller key none = true
smaller key (some min_key) = not (bytes_leb min_key key)

-- The loop for the smallest key at the head of an input.
unfoldable pub min_head : Option Bytes → List (List MemEntry) → Option Bytes
min_head best [] = best
min_head best ([] ∷ inputs) = min_head best inputs
min_head best ((e ∷ es) ∷ inputs) =
    min_head (if smaller e.key best then some e.key else best) inputs

-- The newest entry for the smallest key: the one of the last input that has it at its head.
unfoldable pub newest_head : Bytes → List (List MemEntry) → Option MemEntry
newest_head key [] = none
newest_head key ([] ∷ inputs) = newest_head key inputs
newest_head key ((e ∷ es) ∷ inputs) = elim (newest_head key inputs) [
  | some x ↦ some x
  | none ↦ if bytes_eq e.key key then some e else none
]

unfoldable pub advance : Bytes → List MemEntry → List MemEntry
advance key [] = []
advance key (e ∷ es) = if bytes_eq e.key key then es else e ∷ es

-- Tombstones are dropped.
abbrev pub emit_as : EntryKind → MemEntry → List MemEntry → List MemEntry
emit_as kind_delete e rest = rest
emit_as kind_put e rest = e ∷ rest

unfoldable pub merge_loop : ℕ → List (List MemEntry) → List MemEntry
merge_loop zero inputs = []
merge_loop (suc fuel) inputs = elim (min_head none inputs) [
  | none ↦ []
  | some key ↦
      let rest = merge_loop fuel (map (advance key) inputs) in
      elim (newest_head key inputs) [ none ↦ rest | some e ↦ emit_as e.kind e rest ]
]

-- sort.Slice by key.
unfoldable pub sort_insert : MemEntry → List MemEntry → List MemEntry
sort_insert e [] = e ∷ []
sort_insert e (x ∷ xs) =
    let rest = sort_insert e xs in if bytes_leb e.key x.key then e ∷ x ∷ xs else x ∷ rest

unfoldable pub sort_entries : List MemEntry → List MemEntry
sort_entries [] = []
sort_entries (e ∷ es) = sort_insert e (sort_entries es)

abbrev pub total : List (List MemEntry) → ℕ
total [] = 0
total (es ∷ inputs) = length es + total inputs

-- Each round of the loop takes an entry at least, so that the number of entries bounds the rounds.
unfoldable pub merge_entries : List (List MemEntry) → List MemEntry
merge_entries inputs = sort_entries (merge_loop (total inputs) inputs)
