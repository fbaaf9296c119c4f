-- ===== src/Storage/Merge/Newest.antt =====
-- What the merge of sorted inputs holds.
use distributed_key_value_st.Base.{
  subst, ℕ, zero, suc, ◌≤◌, ◌≡◌, inl, inr, refl, sym, ap, ◌∙◌, true, false, List, [], ◌∷◌, map,
  Option, none, some, arith, Bool-cases, Option-cases, Bytes, bytes_eq, bytes_leb_refl,
  bytes_eq_refl, bytes_eq→≡,
}
use distributed_key_value_st.Storage.Memtable.{MemEntry, EntryKind, kind_put, kind_delete}
use distributed_key_value_st.Storage.Memtable.Order.{Above, Sorted, Before→leb, find}
use distributed_key_value_st.Storage.Memtable.Lookup.{find-Above}
use distributed_key_value_st.Storage.Merge.{
  min_head, advance, emit_as, total, merge_loop, sort_insert, sort_entries, merge_entries,
}
use distributed_key_value_st.Storage.Merge.Heads.{
  AllSorted, newest, min_head-none, min_head-AllFrom,
}
use distributed_key_value_st.Storage.Merge.Rounds.{
  newest_head-newest, newest-advance, advance-AllSorted, advance-AllAbove, newest_head-key,
  min_head-shrinks,
}
use distributed_key_value_st.Storage.Merge.Ordered.{
  emit, merge_loop-done, merge_loop-round, merge_loop-Sorted, merge_loop-Sorted',
}

abbrev live_as : EntryKind → MemEntry → Option MemEntry
live_as kind_delete e = none
live_as kind_put e = some e

-- An entry that is not a tombstone.
abbrev pub live : Option MemEntry → Option MemEntry
live none = none
live (some e) = live_as e.kind e

-- A round on the key that is looked up, and on another key.
find-emit_as :
    (c : EntryKind) (k : Bytes) (e : MemEntry) (rest : List MemEntry)
    → e.key ≡ k
    → find k rest ≡ none
    → find k (emit_as c e rest) ≡ live_as c e
find-emit_as kind_delete k e rest same h = h
find-emit_as kind_put k e rest same h =
    let met : bytes_eq e.key k ≡ true = rw same (bytes_eq_refl k) in rw met refl

find-emit_as_other :
    (c : EntryKind) (q k : Bytes) (e : MemEntry) (rest : List MemEntry)
    → e.key ≡ k
    → bytes_eq k q ≡ false
    → find q (emit_as c e rest) ≡ find q rest
find-emit_as_other kind_delete q k e rest same ne = refl
find-emit_as_other kind_put q k e rest same ne =
    let other : bytes_eq e.key q ≡ false = rw same ne in rw other refl

find-emit :
    (k : Bytes) (o : Option MemEntry) (rest : List MemEntry)
    → ((e : MemEntry) → o ≡ some e → e.key ≡ k)
    → find k rest ≡ none
    → find k (emit o rest) ≡ live o
find-emit k none rest key h = h
find-emit k (some e) rest key h = find-emit_as e.kind k e rest (key e refl) h

find-emit_other :
    (q k : Bytes) (o : Option MemEntry) (rest : List MemEntry)
    → ((e : MemEntry) → o ≡ some e → e.key ≡ k)
    → bytes_eq k q ≡ false
    → find q (emit o rest) ≡ find q rest
find-emit_other q k none rest key ne = refl
find-emit_other q k (some e) rest key ne = find-emit_as_other e.kind q k e rest (key e refl) ne

find-merge_loop :
    (fuel : ℕ) (q : Bytes) (inputs : List (List MemEntry))
    → total inputs ≤ fuel
    → AllSorted inputs
    → find q (merge_loop fuel inputs) ≡ live (newest q inputs)
unfolding merge_loop
find-merge_loop zero q inputs enough s = elim (Option-cases (min_head none inputs)) [
  | inl h ↦ ap live (sym (min_head-none q inputs h))
  | inr (k, h) ↦ absurd (omega (arith, min_head-shrinks k inputs h))
]
find-merge_loop (suc fuel) q inputs enough s = elim (Option-cases (min_head none inputs)) [
  | inl h ↦
      ap (find q) (merge_loop-done (suc fuel) inputs h) ∙ ap live (sym (min_head-none q inputs h))
  | inr (k, h) ↦
      let from = min_head-AllFrom inputs k h in
      let rest = map (advance k) inputs in
      let key : (e : MemEntry) → newest k inputs ≡ some e → e.key ≡ k =
        λ e n. newest_head-key k inputs e (newest_head-newest k inputs from s ∙ n) in
      let s' = advance-AllSorted k inputs s in
      ap (find q) (merge_loop-round fuel inputs k h s) ∙ elim (Bool-cases (bytes_eq k q)) [
        | inl t ↦
            let (above, _) = merge_loop-Sorted fuel k rest s' (advance-AllAbove k inputs from s) in
            subst
              (λ x. find x (emit (newest k inputs) (merge_loop fuel rest)) ≡ live (newest x inputs))
              (bytes_eq→≡ k q t)
              (find-emit k (newest k inputs) _ key (find-Above k k _ (bytes_leb_refl k) above))
        | inr ne ↦
            find-emit_other q k (newest k inputs) _ key ne
            ∙ (find-merge_loop fuel q rest (omega (arith, min_head-shrinks k inputs h)) s'
                ∙ ap live (newest-advance k q inputs ne))
      ]
]

sort_insert-Above : (e : MemEntry) (es : List MemEntry) → Above e.key es → sort_insert e es ≡ e ∷ es
unfolding sort_insert
sort_insert-Above e [] a = refl
sort_insert-Above e (x ∷ xs) (a, above) = rw (Before→leb e.key x.key a) refl

sort_entries-Sorted : (es : List MemEntry) → Sorted es → sort_entries es ≡ es
unfolding sort_entries
sort_entries-Sorted [] s = refl
sort_entries-Sorted (e ∷ es) (a, s) =
    ap (sort_insert e) (sort_entries-Sorted es s) ∙ sort_insert-Above e es a

-- Merging sorted inputs gives a sorted list in which a key has the entry of the last input that has
-- the key, and is missing when that entry is a tombstone or no input has the key.
pub merge_entries-newest :
    (inputs : List (List MemEntry)) (q : Bytes)
    → AllSorted inputs
    → Sorted (merge_entries inputs) × (find q (merge_entries inputs) ≡ live (newest q inputs))
unfolding merge_entries
merge_entries-newest inputs q s =
    let sorted = merge_loop-Sorted' (total inputs) inputs s in
    let same = sort_entries-Sorted _ sorted in
    (rw same sorted, ap (find q) same ∙ find-merge_loop (total inputs) q inputs (omega arith) s)
