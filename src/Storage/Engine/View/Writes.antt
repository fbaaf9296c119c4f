-- ===== src/Storage/Engine/View/Writes.antt =====
-- Put, Delete and Get of the engine.
use distributed_key_value_st.Base.{
  prefer, ◌+◌, ◌≡◌, refl, ap, ◌∙◌, Bool, true, false, List, [], ◌∷◌, Option, none, some,
  if◌then◌else◌, ◌⊎◌, Bytes, bytes_eq, Bool-cases, Option-cases, inl, inr,
}
use distributed_key_value_st.Storage.Memtable.{
  EntryKind, MemEntry, kind_put, kind_delete, Memtable, put as memtable_put,
  delete as memtable_delete, get as memtable_get, insert,
}
use distributed_key_value_st.Storage.Memtable.Order.{Sorted, find}
use distributed_key_value_st.Storage.Memtable.Lookup.{
  answer, get-find, insert-insert_sorted, find-insert_sorted,
}
use distributed_key_value_st.Storage.Memtable.Refine.{insert-Sorted}
use distributed_key_value_st.Storage.Engine.{
  Engine, Sstables, put, delete, get, get_immutable, get_from,
}
use distributed_key_value_st.Storage.Engine.View.{
  found, value_of, in_list, TableLaws, AllTrusted, in_tables, in_immutable, view, AllTablesSorted,
  ImmutableSorted, WellFormed,
}

pub in_list-insert :
    (q : Bytes) (e : MemEntry) (es : List MemEntry)
    → Sorted es
    → in_list q (insert e es) ≡ (if bytes_eq e.key q then some (e.value, e.kind) else in_list q es)
in_list-insert q e es s =
    ap (in_list q) (insert-insert_sorted e es s)
    ∙ (ap found (find-insert_sorted q e es)
        ∙ elim (Bool-cases (bytes_eq e.key q)) [ inl t ↦ rw t refl | inr f ↦ rw f refl ])

kind-cases : (c : EntryKind) → (c ≡ kind_put) ⊎ (c ≡ kind_delete)
kind-cases kind_put = inl refl
kind-cases kind_delete = inr refl

answer-found : (o : Option MemEntry) → answer o ≡ value_of (found o)
answer-found none = refl
answer-found (some e) = elim (kind-cases e.kind) [ inl a ↦ rw a refl | inr d ↦ rw d refl ]

pub get-in_list :
    (q : Bytes) (m : Memtable)
    → Sorted m.entries
    → memtable_get q m ≡ value_of (in_list q m.entries)
get-in_list q m s = get-find q m s ∙ answer-found (find q m.entries)

pub value_of-if :
    (b : Bool) (x : Bytes × EntryKind) (o rest : Option (Bytes × EntryKind))
    → value_of (prefer (if b then some x else o) rest)
      ≡ (if b then value_of (some x) else value_of (prefer o rest))
value_of-if true x o rest = refl
value_of-if false x o rest = refl

module _ {T : Type 0} ⦃files : Sstables T⦄ (laws : TableLaws files) where
  -- An open engine takes a put, keeps its layers sorted, and then stands for the map in which the
  -- written key has the new value and every other key its old one.
  pub put-view :
      (k v q : Bytes) (e : Engine T)
      → e.closed ≡ false
      → WellFormed laws e
      → ((put k v e).0 ≡ true)
        × WellFormed laws (put k v e).1
        × (view laws q (put k v e).1 ≡ (if bytes_eq k q then some v else view laws q e))
  unfolding put memtable_put
  put-view k v q e open_ w =
      let x : MemEntry = record { key = k; value = v; kind = kind_put; seq = e.active.seq + 1 } in
      rw open_ (
        refl,
        record {
          active = insert-Sorted x e.active.entries w.active;
          immutable = w.immutable;
          sstables = w.sstables;
        },
        ap
              (λ o.
                value_of (
                  prefer o
                    (prefer (in_immutable laws q e.immutable) (in_tables laws q e.sstables))))
              (in_list-insert q x e.active.entries w.active)
            ∙ value_of-if (bytes_eq k q) (v, kind_put) (in_list q e.active.entries) _,
      )

  -- An open engine takes a delete, keeps its layers sorted, and then stands for the map in which the
  -- key has no value and every other key its old one.
  pub delete-view :
      (k q : Bytes) (e : Engine T)
      → e.closed ≡ false
      → WellFormed laws e
      → ((delete k e).0 ≡ true)
        × WellFormed laws (delete k e).1
        × (view laws q (delete k e).1 ≡ (if bytes_eq k q then none else view laws q e))
  unfolding delete memtable_delete
  delete-view k q e open_ w =
      let x : MemEntry = record {
        key = k;
        value = [];
        kind = kind_delete;
        seq = e.active.seq + 1;
      } in
      rw open_ (
        refl,
        record {
          active = insert-Sorted x e.active.entries w.active;
          immutable = w.immutable;
          sstables = w.sstables;
        },
        ap
              (λ o.
                value_of (
                  prefer o
                    (prefer (in_immutable laws q e.immutable) (in_tables laws q e.sstables))))
              (in_list-insert q x e.active.entries w.active)
            ∙ value_of-if (bytes_eq k q) ([], kind_delete) (in_list q e.active.entries) _,
      )

  pub get_from-in_tables :
      (q : Bytes) (ts : List T)
      → AllTrusted laws q ts
      → AllTablesSorted laws ts
      → get_from q ts ≡ value_of (in_tables laws q ts)
  unfolding get_from
  get_from-in_tables q [] trusted s = refl
  get_from-in_tables q (t ∷ ts) (here, later) (s, ss) =
      let looked = laws.looked_up q t here s in
      elim (Option-cases (in_list q (laws.contents t))) [
        | inl n ↦ rw (looked, get_from, n) (get_from-in_tables q ts later ss)
        | inr ((v, c), n) ↦ elim (kind-cases c) [
          | inl a ↦ rw (looked, get_from, n, a) refl
          | inr d ↦ rw (looked, get_from, n, d) refl
        ]
      ]

  get_immutable-in_immutable :
      (q : Bytes) (m : Option Memtable)
      → ImmutableSorted laws m
      → get_immutable q m ≡ value_of (in_immutable laws q m)
  unfolding get_immutable
  get_immutable-in_immutable q none s = refl
  get_immutable-in_immutable q (some m) s = get-in_list q m s

  -- What Get does: the first layer with a value for the key answers, where a tombstone in a memtable
  -- is passed over.
  pub get-layers :
      (q : Bytes) (e : Engine T)
      → AllTrusted laws q e.sstables
      → WellFormed laws e
      → get q e
        ≡ prefer (value_of (in_list q e.active.entries)) (
            prefer
              (value_of (in_immutable laws q e.immutable))
              (value_of (in_tables laws q e.sstables)))
  unfolding get
  get-layers q e trusted w =
      ap (λ o. prefer o (prefer (get_immutable q e.immutable) (get_from q e.sstables)))
        (get-in_list q e.active w.active)
      ∙ (ap (λ o. prefer (value_of (in_list q e.active.entries)) (prefer o (get_from q e.sstables)))
            (get_immutable-in_immutable q e.immutable w.immutable)
          ∙ ap
              (λ o.
                prefer (value_of (in_list q e.active.entries))
                  (prefer (value_of (in_immutable laws q e.immutable)) o))
              (get_from-in_tables q e.sstables trusted w.sstables))
