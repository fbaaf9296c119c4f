-- ===== src/Storage/Memtable/Refine.antt =====
-- The memtable against a map in which the latest write of a key wins.
use distributed_key_value_st.Base.{
  ◌+◌, ◌≡◌, refl, sym, ap, ◌∙◌, List, [], ◌∷◌, Option, none, some, if◌then◌else◌, Bool-cases, inl,
  inr, Bytes, bytes_eq,
}
use distributed_key_value_st.Storage.Memtable.{
  MemEntry, Memtable, entry_at, kind_put, kind_delete, new_memtable, insert, put, delete, get,
}
use distributed_key_value_st.Storage.Memtable.Order.{Sorted, find}
use distributed_key_value_st.Storage.Memtable.Lookup.{
  answer, get-find, insert-insert_sorted, insert_sorted-Sorted, find-insert_sorted,
}

pub insert-Sorted : (e : MemEntry) (es : List MemEntry) → Sorted es → Sorted (insert e es)
insert-Sorted e es s = rw (insert-insert_sorted e es s) (insert_sorted-Sorted e es s)

-- An insertion answers a later lookup of its key, and no other.
answer-insert :
    (k : Bytes) (e : MemEntry) (es : List MemEntry)
    → Sorted es
    → answer (find k (insert e es))
      ≡ (if bytes_eq e.key k then answer (some e) else answer (find k es))
answer-insert k e es s =
    ap (λ l. answer (find k l)) (insert-insert_sorted e es s)
    ∙ (ap answer (find-insert_sorted k e es)
        ∙ elim (Bool-cases (bytes_eq e.key k)) [ inl t ↦ rw t refl | inr f ↦ rw f refl ])

-- Writing keeps the table sorted, and a lookup after a put or a delete answers as a map would.
pub put-get :
    (k v q : Bytes) (m : Memtable)
    → Sorted m.entries
    → Sorted (put k v m).entries × (get q (put k v m) ≡ (if bytes_eq k q then some v else get q m))
unfolding put
put-get k v q m s =
    let e : MemEntry = record { key = k; value = v; kind = kind_put; seq = m.seq + 1 } in
    let s' = insert-Sorted e m.entries s in
    (
      s',
      get-find q (put k v m) s'
          ∙ (answer-insert q e m.entries s
              ∙ ap (λ o. if bytes_eq k q then some v else o) (sym (get-find q m s))),
    )

pub delete-get :
    (k q : Bytes) (m : Memtable)
    → Sorted m.entries
    → Sorted (delete k m).entries × (get q (delete k m) ≡ (if bytes_eq k q then none else get q m))
unfolding delete
delete-get k q m s =
    let e : MemEntry = record { key = k; value = []; kind = kind_delete; seq = m.seq + 1 } in
    let s' = insert-Sorted e m.entries s in
    (
      s',
      get-find q (delete k m) s'
          ∙ (answer-insert q e m.entries s
              ∙ ap (λ o. if bytes_eq k q then none else o) (sym (get-find q m s))),
    )

pub data Write : Type 0 where
  putting : Bytes → Bytes → Write
  deleting : Bytes → Write

-- The memtable after some writes, and the map that they make, the newest write first.
abbrev pub written : List Write → Memtable
written [] = new_memtable
written (putting k v ∷ ws) = put k v (written ws)
written (deleting k ∷ ws) = delete k (written ws)

abbrev pub latest : Bytes → List Write → Option Bytes
latest q [] = none
latest q (putting k v ∷ ws) = let rest = latest q ws in if bytes_eq k q then some v else rest
latest q (deleting k ∷ ws) = let rest = latest q ws in if bytes_eq k q then none else rest

pub written-Sorted : (ws : List Write) → Sorted (written ws).entries
written-Sorted [] = tt
written-Sorted (putting k v ∷ ws) = (put-get k v [] (written ws) (written-Sorted ws)).0
written-Sorted (deleting k ∷ ws) = (delete-get k [] (written ws) (written-Sorted ws)).0

-- After any sequence of puts and deletes on a new memtable, its entries are sorted, and a lookup by
-- binary search answers with the latest value written for the key, or with nothing when the latest
-- write deleted it or none was made.
pub written-get :
    (q : Bytes) (ws : List Write) → Sorted (written ws).entries × (get q (written ws) ≡ latest q ws)
unfolding get entry_at
written-get q [] = (tt, refl)
written-get q (putting k v ∷ ws) =
    let (s, e) = written-get q ws in
    let (s', g) = put-get k v q (written ws) s in
    (s', g ∙ ap (λ o. if bytes_eq k q then some v else o) e)
written-get q (deleting k ∷ ws) =
    let (s, e) = written-get q ws in
    let (s', g) = delete-get k q (written ws) s in
    (s', g ∙ ap (λ o. if bytes_eq k q then none else o) e)
