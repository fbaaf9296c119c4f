-- ===== src/Storage/Engine/View/Restore.antt =====
-- A snapshot of one engine, loaded into another.
use distributed_key_value_st.Base.{
  prefer, prefer-none, ◌≡◌, refl, sym, ap, ◌∙◌, List, [], ◌∷◌, ◌++◌, map, none, some, Bytes,
  Bool-cases, Option-cases, inl, inr, ltb, append_assoc,
}
use distributed_key_value_st.Storage.Memtable.{MemEntry, new_memtable}
use distributed_key_value_st.Storage.Memtable.Order.{Sorted}
use distributed_key_value_st.Storage.Codec.{encode_snapshot}
use distributed_key_value_st.Storage.Codec.RoundTrip.{Fits, restored, decode_snapshot-encode}
use distributed_key_value_st.Storage.Merge.{merge_entries}
use distributed_key_value_st.Storage.Merge.Heads.{AllSorted, newest}
use distributed_key_value_st.Storage.Merge.Newest.{merge_entries-newest}
use distributed_key_value_st.Storage.Engine.{
  Engine, Sstables, read_all, layers, put_all, snapshot, load_snapshot, flush_now, do_flush,
}
use distributed_key_value_st.Storage.Engine.View.{
  found, value_of, in_list, TableLaws, in_immutable, view, WellFormed,
}
use distributed_key_value_st.Storage.Engine.View.Flush.{
  Same, Same-trans, rotated-Same, do_flush-Same,
}
use distributed_key_value_st.Storage.Engine.View.Compact.{
  newest-last, live_below, snoc-AllSorted, read_all-Read,
}
use distributed_key_value_st.Storage.Engine.View.Snapshots.{
  as_put, in_list-restored, restored-Sorted, as_put-live, as_put-twice, put_all-in_list,
}

module _ {T : Type 0} ⦃files : Sstables T⦄ (laws : TableLaws files) where
  layers-AllSorted :
      (tables : List (List MemEntry)) (e : Engine T)
      → WellFormed laws e
      → AllSorted tables
      → AllSorted (layers tables e)
  unfolding layers
  layers-AllSorted tables e w s = elim (Option-cases e.immutable) [
    | inl n ↦ rw n (snoc-AllSorted laws tables e.active.entries s w.active)
    | inr (m, n) ↦
        let sm : Sorted m.entries = rw n at w.immutable in
        rw (n, ← append_assoc tables (m.entries ∷ []) (e.active.entries ∷ []))
          (snoc-AllSorted laws (tables ++ m.entries ∷ []) e.active.entries
            (snoc-AllSorted laws tables m.entries s sm) w.active)
  ]

  newest-layers :
      (tables : List (List MemEntry)) (e : Engine T) (q : Bytes)
      → found (newest q (layers tables e))
        ≡ prefer
            (in_list q e.active.entries)
            (prefer (in_immutable laws q e.immutable) (found (newest q tables)))
  unfolding layers
  newest-layers tables e q = elim (Option-cases e.immutable) [
    | inl n ↦ rw n (newest-last q tables e.active.entries)
    | inr (m, n) ↦
        rw (n, ← append_assoc tables (m.entries ∷ []) (e.active.entries ∷ []))
          (newest-last q (tables ++ m.entries ∷ []) e.active.entries
            ∙ ap (prefer (in_list q e.active.entries)) (newest-last q tables m.entries))
  ]

  flush_now-Same :
      (e : Engine T) → WellFormed laws e → e.immutable ≡ none → Same laws e (flush_now e)
  unfolding flush_now
  flush_now-Same e w idle = elim (Bool-cases (ltb 0 e.active.size)) [
    | inl full ↦
        let e' : Engine T = record e { immutable = some e.active; active = new_memtable } in
        let r = rotated-Same laws e w idle in
        rw full (Same-trans laws e e' (do_flush e') r (do_flush-Same laws e' r.well_formed))
    | inr empty ↦ rw empty (do_flush-Same laws e w)
  ]

  -- The engine that LoadSnapshot sets up before it flushes.
  loaded : List MemEntry → Engine T → Engine T
  loaded es e = record e { sstables = []; active = put_all es new_memtable; immutable = none }

  loaded-view :
      (es : List MemEntry) (e : Engine T)
      → Sorted es
      → WellFormed laws (loaded es e)
        × ((q : Bytes) → view laws q (loaded es e) ≡ value_of (as_put (in_list q es)))
  unfolding loaded
  loaded-view es e s =
      let (sorted, seen) = put_all-in_list es new_memtable s tt in
      (
        record { active = sorted; immutable = tt; sstables = tt },
        λ q.
            ap (λ o. value_of (prefer o none)) (seen q)
            ∙ ap value_of (sym (prefer-none _) ∙ sym (prefer-none (as_put (in_list q es)))),
      )

  -- Loading the snapshot of one engine into any other succeeds, and makes that one stand for the
  -- same map, whatever it held before, with its layers sorted. The layers of the first engine
  -- are sorted, its tables can be read, and the snapshot fits its format: its keys and values are
  -- shorter than 2 ^ 32 bytes.
  pub load_snapshot-snapshot :
      (e e' : Engine T) (tables : List (List MemEntry))
      → WellFormed laws e
      → read_all e.sstables ≡ some tables
      → Fits (merge_entries (layers tables e))
      → (blob : Bytes) × (m : Engine T) × (snapshot e ≡ some blob)
        × (load_snapshot blob e' ≡ some m)
        × WellFormed laws m
        × ((q : Bytes) → view laws q m ≡ view laws q e)
  unfolding snapshot load_snapshot loaded
  load_snapshot-snapshot e e' tables w read fits =
      let r = read_all-Read laws e.sstables tables w.sstables read in
      let inputs = layers tables e in
      let merged = merge_entries inputs in
      let all_sorted = layers-AllSorted tables e w r.sorted in
      let sorted = (merge_entries-newest inputs [] all_sorted).0 in
      let es = map restored merged in
      let (w', seen) = loaded-view es e' (restored-Sorted merged sorted) in
      let flushed = flush_now-Same (loaded es e') w' refl in
      let decoded = decode_snapshot-encode merged fits in
      (
        encode_snapshot merged,
        flush_now (loaded es e'),
        rw read refl,
        rw decoded refl,
        flushed.well_formed,
        λ q.
            flushed.viewed q
            ∙ (seen q
                ∙ (ap (λ o. value_of (as_put o)) (in_list-restored q merged)
                    ∙ (ap value_of (as_put-twice (in_list q merged))
                        ∙ (ap (λ o. value_of (as_put (found o)))
                              (merge_entries-newest inputs q all_sorted).1
                            ∙ (ap value_of (as_put-live (newest q inputs))
                                ∙ (live_below none (newest q inputs)
                                    ∙ (ap value_of (newest-layers tables e q)
                                        ∙ ap
                                            (λ o. value_of (
                                              prefer (in_list q e.active.entries)
                                                (prefer (in_immutable laws q e.immutable) o)))
                                            (r.same q)))))))),
      )
