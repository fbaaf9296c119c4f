-- ===== src/Storage/Merge/Ordered.antt =====
-- The rounds of the merge, and the order of what they emit.
use distributed_key_value_st.Base.{
  ℕ, zero, suc, ◌≡◌, inl, inr, refl, ◌∙◌, List, [], map, Option, none, some, Option-cases, Bytes,
}
use distributed_key_value_st.Storage.Memtable.{MemEntry, EntryKind, kind_put, kind_delete}
use distributed_key_value_st.Storage.Memtable.Order.{Before, Above, Sorted, Before→leb, Above-lower}
use distributed_key_value_st.Storage.Merge.{min_head, advance, emit_as, merge_loop}
use distributed_key_value_st.Storage.Merge.Heads.{AllSorted, AllAbove, newest, min_head-AllFrom}
use distributed_key_value_st.Storage.Merge.Rounds.{
  newest_head-newest, advance-AllSorted, advance-AllAbove, min_head-Before, newest_head-key,
}

-- The entry that a round emits, in front of the rest.
abbrev pub emit : Option MemEntry → List MemEntry → List MemEntry
emit none rest = rest
emit (some e) rest = emit_as e.kind e rest

pub merge_loop-done :
    (fuel : ℕ) (inputs : List (List MemEntry))
    → min_head none inputs ≡ none
    → merge_loop fuel inputs ≡ []
unfolding merge_loop
merge_loop-done zero inputs h = refl
merge_loop-done (suc fuel) inputs h = rw (h, merge_loop) refl

pub merge_loop-round :
    (fuel : ℕ) (inputs : List (List MemEntry)) (k : Bytes)
    → min_head none inputs ≡ some k
    → AllSorted inputs
    → merge_loop (suc fuel) inputs
      ≡ emit (newest k inputs) (merge_loop fuel (map (advance k) inputs))
unfolding merge_loop
merge_loop-round fuel inputs k h s =
    let same = newest_head-newest k inputs (min_head-AllFrom inputs k h) s in
    elim (Option-cases (newest k inputs)) [
      | inl n ↦ rw (h, merge_loop, same, n) refl
      | inr (e, n) ↦ rw (h, merge_loop, same, n) refl
    ]

pub emit_as-Sorted :
    (c : EntryKind) (m k : Bytes) (e : MemEntry) (rest : List MemEntry)
    → Before m k
    → e.key ≡ k
    → Above k rest
    → Sorted rest
    → Above m (emit_as c e rest) × Sorted (emit_as c e rest)
emit_as-Sorted kind_delete m k e rest b same a s = (Above-lower m k rest (Before→leb m k b) a, s)
emit_as-Sorted kind_put m k e rest b same a s =
    ((rw same b, Above-lower m k rest (Before→leb m k b) a), (rw same a, s))

pub emit-Sorted :
    (m k : Bytes) (o : Option MemEntry) (rest : List MemEntry)
    → Before m k
    → ((e : MemEntry) → o ≡ some e → e.key ≡ k)
    → Above k rest × Sorted rest
    → Above m (emit o rest) × Sorted (emit o rest)
emit-Sorted m k none rest b key (a, s) = (Above-lower m k rest (Before→leb m k b) a, s)
emit-Sorted m k (some e) rest b key (a, s) = emit_as-Sorted e.kind m k e rest b (key e refl) a s

-- Above a bound that all inputs are above, the merge is sorted.
pub merge_loop-Sorted :
    (fuel : ℕ) (m : Bytes) (inputs : List (List MemEntry))
    → AllSorted inputs
    → AllAbove m inputs
    → Above m (merge_loop fuel inputs) × Sorted (merge_loop fuel inputs)
unfolding merge_loop
merge_loop-Sorted zero m inputs s a = (tt, tt)
merge_loop-Sorted (suc fuel) m inputs s a = elim (Option-cases (min_head none inputs)) [
  | inl h ↦ rw (merge_loop-done (suc fuel) inputs h) (tt, tt)
  | inr (k, h) ↦
      let from = min_head-AllFrom inputs k h in
      rw (merge_loop-round fuel inputs k h s) (
        emit-Sorted m k (newest k inputs) _ (min_head-Before m k inputs a h)
          (λ e n. newest_head-key k inputs e (newest_head-newest k inputs from s ∙ n))
          (merge_loop-Sorted fuel k (map (advance k) inputs) (advance-AllSorted k inputs s)
            (advance-AllAbove k inputs from s)))
]

pub emit_as-Sorted' :
    (c : EntryKind) (e : MemEntry) (rest : List MemEntry)
    → Above e.key rest
    → Sorted rest
    → Sorted (emit_as c e rest)
emit_as-Sorted' kind_delete e rest a s = s
emit_as-Sorted' kind_put e rest a s = (a, s)

pub emit-Sorted' :
    (k : Bytes) (o : Option MemEntry) (rest : List MemEntry)
    → ((e : MemEntry) → o ≡ some e → e.key ≡ k)
    → Above k rest
    → Sorted rest
    → Sorted (emit o rest)
emit-Sorted' k none rest key a s = s
emit-Sorted' k (some e) rest key a s = emit_as-Sorted' e.kind e rest (rw (key e refl) a) s

-- Without a bound: the first round gives one.
pub merge_loop-Sorted' :
    (fuel : ℕ) (inputs : List (List MemEntry)) → AllSorted inputs → Sorted (merge_loop fuel inputs)
unfolding merge_loop
merge_loop-Sorted' zero inputs s = tt
merge_loop-Sorted' (suc fuel) inputs s = elim (Option-cases (min_head none inputs)) [
  | inl h ↦ rw (merge_loop-done (suc fuel) inputs h) tt
  | inr (k, h) ↦
      let from = min_head-AllFrom inputs k h in
      let (above, sorted) =
        merge_loop-Sorted fuel k (map (advance k) inputs) (advance-AllSorted k inputs s)
          (advance-AllAbove k inputs from s) in
      rw (merge_loop-round fuel inputs k h s) (
        emit-Sorted' k (newest k inputs) _
          (λ e n. newest_head-key k inputs e (newest_head-newest k inputs from s ∙ n)) above sorted)
]
