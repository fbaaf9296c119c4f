-- ===== src/Storage/Engine/View/Snapshots.antt =====
-- The memtable that LoadSnapshot fills from what a snapshot keeps.
use distributed_key_value_st.Base.{
  prefer, ◌+◌, ◌≡◌, refl, ap, ◌∙◌, List, [], ◌∷◌, map, Option, none, some, Bytes, bytes_eq,
  Bool-cases, inl, inr, arith,
}
use distributed_key_value_st.Storage.Memtable.{
  EntryKind, MemEntry, kind_put, Memtable, put as memtable_put,
}
use distributed_key_value_st.Storage.Memtable.Order.{Sorted, Above}
use distributed_key_value_st.Storage.Memtable.Lookup.{find-Above, leb_of_eq}
use distributed_key_value_st.Storage.Memtable.Refine.{insert-Sorted}
use distributed_key_value_st.Storage.Codec.RoundTrip.{restored}
use distributed_key_value_st.Storage.Merge.Newest.{live}
use distributed_key_value_st.Storage.Engine.{put_all}
use distributed_key_value_st.Storage.Engine.View.{found, in_list}
use distributed_key_value_st.Storage.Engine.View.Writes.{in_list-insert}

-- A snapshot keeps no kind: what it restores is a value.
unfoldable pub as_put : Option (Bytes × EntryKind) → Option (Bytes × EntryKind)
as_put none = none
as_put (some (v, c)) = some (v, kind_put)

pub in_list-restored :
    (q : Bytes) (es : List MemEntry) → in_list q (map restored es) ≡ as_put (in_list q es)
unfolding as_put
in_list-restored q [] = refl
in_list-restored q (e ∷ es) = elim (Bool-cases (bytes_eq e.key q)) [
  | inl t ↦ rw t refl
  | inr f ↦ rw f (in_list-restored q es)
]

restored-Above : (k : Bytes) (es : List MemEntry) → Above k es → Above k (map restored es)
restored-Above k [] a = a
restored-Above k (e ∷ es) (a, rest) = (a, restored-Above k es rest)

pub restored-Sorted : (es : List MemEntry) → Sorted es → Sorted (map restored es)
restored-Sorted [] s = s
restored-Sorted (e ∷ es) (a, s) = (restored-Above e.key es a, restored-Sorted es s)

pub as_put-live : (o : Option MemEntry) → as_put (found (live o)) ≡ found (live o)
unfolding as_put
as_put-live none = refl
as_put-live (some e) = ground arith

pub as_put-twice : (o : Option (Bytes × EntryKind)) → as_put (as_put o) ≡ as_put o
unfolding as_put
as_put-twice none = refl
as_put-twice (some (v, c)) = refl

-- The table that LoadSnapshot fills.
pub put_all-in_list :
    (es : List MemEntry) (m : Memtable)
    → Sorted es
    → Sorted m.entries
    → Sorted (put_all es m).entries
      × ((q : Bytes)
          → in_list q (put_all es m).entries ≡ prefer (as_put (in_list q es)) (in_list q m.entries))
unfolding put_all memtable_put as_put
put_all-in_list [] m s t = (t, λ q. refl)
put_all-in_list (e ∷ es) m (a, s) t =
    let x : MemEntry = record { key = e.key; value = e.value; kind = kind_put; seq = m.seq + 1 } in
    let (sorted, rest) =
      put_all-in_list es (memtable_put e.key e.value m) s (insert-Sorted x m.entries t) in
    (
      sorted,
      λ q.
          rest q
          ∙ (ap (prefer (as_put (in_list q es))) (in_list-insert q x m.entries t)
              ∙ elim (Bool-cases (bytes_eq e.key q)) [
                | inl met ↦
                    let missing = find-Above q e.key es (leb_of_eq e.key q met) a in
                    rw (met, missing) refl
                | inr ne ↦ rw ne refl
              ]),
    )
