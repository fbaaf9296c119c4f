-- ===== src/Storage/Engine/View/Compact.antt =====
-- Compaction: the tables merged into one.
use distributed_key_value_st.Base.{
  prefer_assoc, prefer-none, prefer, ◌≡◌, refl, sym, ap, ◌∙◌, subst, false, List, [], ◌∷◌, ◌++◌,
  Option, none, some, Bytes, Option-cases, inl, inr, arith, ◌==◌,
}
use distributed_key_value_st.Storage.Memtable.{EntryKind, MemEntry, Memtable}
use distributed_key_value_st.Storage.Memtable.Order.{Sorted, find}
use distributed_key_value_st.Storage.Merge.{merge_entries}
use distributed_key_value_st.Storage.Merge.Heads.{AllSorted, newest}
use distributed_key_value_st.Storage.Merge.Newest.{live, merge_entries-newest}
use distributed_key_value_st.Storage.Engine.{
  Engine, Sstables, read_all, begin_compaction, end_compaction, do_flush,
}
use distributed_key_value_st.Storage.Engine.View.{
  found, value_of, in_list, TableLaws, in_tables, in_immutable, view, AllTablesSorted, WellFormed,
}
use distributed_key_value_st.Storage.Engine.View.Flush.{in_list-filed, filed-Sorted, Same}

found-prefer : (a b : Option MemEntry) → found (prefer a b) ≡ prefer (found a) (found b)
found-prefer none b = refl
found-prefer (some x) b = refl

-- The newest of inputs to which a newer one was added at the end.
pub newest-last :
    (q : Bytes) (inputs : List (List MemEntry)) (es : List MemEntry)
    → found (newest q (inputs ++ es ∷ [])) ≡ prefer (in_list q es) (found (newest q inputs))
newest-last q [] es = prefer-none (in_list q es)
newest-last q (x ∷ inputs) es =
    found-prefer (newest q (inputs ++ es ∷ [])) (find q x)
    ∙ (ap (λ o. prefer o (found (find q x))) (newest-last q inputs es)
        ∙ (prefer_assoc (in_list q es) (found (newest q inputs)) (in_list q x)
            ∙ ap (prefer (in_list q es)) (sym (found-prefer (newest q inputs) (find q x)))))

-- Dropping a tombstone at the bottom changes no value.
pub live_below :
    (x : Option (Bytes × EntryKind)) (o : Option MemEntry)
    → value_of (prefer x (found (live o))) ≡ value_of (prefer x (found o))
live_below (some y) o = refl
live_below none none = refl
live_below none (some e) = ground arith

module _ {T : Type 0} ⦃files : Sstables T⦄ (laws : TableLaws files) where
  -- What IterateAll read from the tables.
  pub record Read (ts : List T) (inputs : List (List MemEntry)) : Type 0 where
    pub sorted : AllSorted inputs
    pub same : (q : Bytes) → found (newest q inputs) ≡ in_tables laws q ts

  pub snoc-AllSorted :
      (inputs : List (List MemEntry)) (es : List MemEntry)
      → AllSorted inputs
      → Sorted es
      → AllSorted (inputs ++ es ∷ [])
  snoc-AllSorted [] es s t = (t, tt)
  snoc-AllSorted (x ∷ inputs) es (s, ss) t = (s, snoc-AllSorted inputs es ss t)

  pub read_all-Read :
      (ts : List T) (inputs : List (List MemEntry))
      → AllTablesSorted laws ts
      → read_all ts ≡ some inputs
      → Read ts inputs
  unfolding read_all
  read_all-Read [] inputs s h =
      let e : [] ≡ inputs = ground (arith, h) in
      subst (Read []) e (record { sorted = tt; same = λ q. refl })
  read_all-Read (t ∷ ts) inputs (s, ss) h = elim (Option-cases (read_all ts)) [
    | inl n ↦ absurd (ground (arith, n, h))
    | inr (older, n) ↦ elim (Option-cases (files.iterate_all t)) [
      | inl m ↦ absurd (ground (arith, n, m, h))
      | inr (es, m) ↦
          let e : older ++ es ∷ [] ≡ inputs = ground (arith, n, m, h) in
          let r = read_all-Read ts older ss n in
          let c = laws.iterated t es m in
          subst (Read (t ∷ ts)) e (record {
            sorted = snoc-AllSorted older es r.sorted (rw c s);
            same = λ q.
                newest-last q older es
                ∙ (ap (λ l. prefer (in_list q l) (found (newest q older))) c
                    ∙ ap (prefer (in_list q (laws.contents t))) (r.same q));
          })
    ]
  ]

  compaction_parts :
      (e : Engine T) (t : T)
      → begin_compaction e ≡ some t
      → (inputs : List (List MemEntry)) × (read_all e.sstables ≡ some inputs)
        × (files.write (merge_entries inputs) ≡ some t)
  unfolding begin_compaction
  compaction_parts e t h = elim (Option-cases (read_all e.sstables)) [
    | inl n ↦ absurd (ground (arith, n, h))
    | inr (inputs, n) ↦ (inputs, n, ground (arith, n, h))
  ]

  -- A compaction that nothing interrupts keeps the layers sorted and keeps what they stand for.
  pub end_compaction-Same :
      (e : Engine T) (t : T)
      → WellFormed laws e
      → begin_compaction e ≡ some t
      → Same laws e (end_compaction t e)
  unfolding end_compaction
  end_compaction-Same e t w h =
      let (inputs, n, stored) = compaction_parts e t h in
      let r = read_all-Read e.sstables inputs w.sstables n in
      let sorted = (merge_entries-newest inputs [] r.sorted).0 in
      let c = laws.written (merge_entries inputs) t sorted stored in
      record {
        well_formed = record {
          active = w.active;
          immutable = w.immutable;
          sstables = (rw c (filed-Sorted (merge_entries inputs) sorted), tt);
        };
        viewed = λ q.
            let merged = (merge_entries-newest inputs q r.sorted).1 in
            let seen : in_list q (laws.contents t) ≡ found (live (newest q inputs)) =
              ap (in_list q) c ∙ (in_list-filed q (merge_entries inputs) ∙ ap found merged) in
            let a = in_list q e.active.entries in
            let b = in_immutable laws q e.immutable in
            ap (λ o. value_of (prefer a (prefer b o))) (sym (prefer-none _) ∙ seen)
            ∙ (ap value_of (sym (prefer_assoc a b _))
                ∙ (live_below (prefer a b) (newest q inputs)
                    ∙ (ap value_of (prefer_assoc a b _)
                        ∙ ap (λ o. value_of (prefer a (prefer b o))) (r.same q))));
      }

  do_flush_written :
      (e : Engine T) (m : Memtable) (u : T)
      → e.immutable ≡ some m
      → (m.size == 0) ≡ false
      → files.write m.entries ≡ some u
      → do_flush e ≡ record e { sstables = u ∷ e.sstables; immutable = none }
  unfolding do_flush
  do_flush_written e m u held full stored = ground (arith, held, full, stored)

  -- When a flush finishes between the two halves of a compaction, the memtable that it wrote is lost:
  -- afterwards the engine stands for what it would without that memtable.
  pub compaction_loses_flush :
      (e : Engine T) (m : Memtable) (t u : T) (q : Bytes)
      → WellFormed laws e
      → begin_compaction e ≡ some t
      → e.immutable ≡ some m
      → (m.size == 0) ≡ false
      → files.write m.entries ≡ some u
      → view laws q (end_compaction t (do_flush e)) ≡ view laws q (record e { immutable = none })
  unfolding end_compaction begin_compaction
  compaction_loses_flush e m t u q w begun held full stored =
      let e' : Engine T = record e { immutable = none } in
      let w' : WellFormed laws e' = record {
        active = w.active;
        immutable = tt;
        sstables = w.sstables;
      } in
      ap (λ x. view laws q (end_compaction t x)) (do_flush_written e m u held full stored)
      ∙ (end_compaction-Same e' t w' begun).viewed q
