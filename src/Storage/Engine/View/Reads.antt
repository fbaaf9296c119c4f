-- ===== src/Storage/Engine/View/Reads.antt =====
-- storage/engine.go: Get against the map that the layers stand for.
use distributed_key_value_st.Base.{
  prefer, ◌+◌, ◌≡◌, refl, ap, ◌∙◌, Bool, true, false, [], Option, none, some, if◌then◌else◌, Bytes,
  bytes_eq, bytes_eq_refl,
}
use distributed_key_value_st.Storage.Memtable.{
  EntryKind, MemEntry, kind_put, kind_delete, delete as memtable_delete,
}
use distributed_key_value_st.Storage.Memtable.Refine.{put-get}
use distributed_key_value_st.Storage.Engine.{
  Engine, Sstables, put, delete, get, get_immutable, get_from,
}
use distributed_key_value_st.Storage.Engine.View.{
  value_of, in_list, TableLaws, AllTrusted, in_tables, in_immutable, view, WellFormed,
}
use distributed_key_value_st.Storage.Engine.View.Writes.{delete-view, get-layers, in_list-insert}

-- The layer has no tombstone for the key.
abbrev pub Undeleted : Option (Bytes × EntryKind) → Type 0
Undeleted none = Unit {0}
Undeleted (some (v, kind_put)) = Unit {0}
Undeleted (some (v, kind_delete)) = ⊥

value_of-prefer :
    (o rest : Option (Bytes × EntryKind))
    → Undeleted o
    → prefer (value_of o) (value_of rest) ≡ value_of (prefer o rest)
value_of-prefer none rest u = refl
value_of-prefer (some (v, kind_put)) rest u = refl
value_of-prefer (some (v, kind_delete)) rest u = elim u [ ]

prefer-if :
    (b : Bool) (v : Bytes) (o rest : Option Bytes)
    → prefer (if b then some v else o) rest ≡ (if b then some v else prefer o rest)
prefer-if true v o rest = refl
prefer-if false v o rest = refl

module _ {T : Type 0} ⦃files : Sstables T⦄ (laws : TableLaws files) where
  -- Get answers what the layers stand for, when no memtable has a tombstone for the key, every layer
  -- is sorted and the tables can be trusted with the key.
  pub get-view :
      (q : Bytes) (e : Engine T)
      → AllTrusted laws q e.sstables
      → WellFormed laws e
      → Undeleted (in_list q e.active.entries)
      → Undeleted (in_immutable laws q e.immutable)
      → get q e ≡ view laws q e
  get-view q e trusted w a i =
      get-layers laws q e trusted w
      ∙ (ap (prefer (value_of (in_list q e.active.entries)))
            (value_of-prefer (in_immutable laws q e.immutable) (in_tables laws q e.sstables) i)
          ∙ value_of-prefer (in_list q e.active.entries) _ a)

  -- A key whose newest value lies in a table is still found after it has been deleted: Get passes
  -- over the tombstone in the memtable and answers with the old value, where the layers stand for no
  -- value. The engine is open, its layers are sorted, its tables can be trusted with the key, and no
  -- flush is in progress.
  pub deleted_key_comes_back :
      (k v : Bytes) (e : Engine T)
      → e.closed ≡ false
      → AllTrusted laws k e.sstables
      → WellFormed laws e
      → e.immutable ≡ none
      → in_tables laws k e.sstables ≡ some (v, kind_put)
      → (get k (delete k e).1 ≡ some v) × (view laws k (delete k e).1 ≡ none)
  unfolding delete memtable_delete
  deleted_key_comes_back k v e open_ trusted w idle old =
      let x : MemEntry = record {
        key = k;
        value = [];
        kind = kind_delete;
        seq = e.active.seq + 1;
      } in
      let (_, w', gone) = delete-view laws k k e open_ w in
      let met = bytes_eq_refl k in
      let there = in_list-insert k x e.active.entries w.active in
      let layers = get-layers laws k (delete k e).1 (rw open_ trusted) w' in
      (layers ∙ rw (open_, there, met, idle, old) refl, gone ∙ rw met refl)

  -- After a put Get answers with the new value for the written key, and for another key as it did
  -- before. The engine is open and its layers are sorted.
  pub put_then_get :
      (k v q : Bytes) (e : Engine T)
      → e.closed ≡ false
      → WellFormed laws e
      → get q (put k v e).1 ≡ (if bytes_eq k q then some v else get q e)
  unfolding put get
  put_then_get k v q e open_ w =
      let (_, stored) = put-get k v q e.active w.active in
      rw open_ (
        ap (λ o. prefer o (prefer (get_immutable q e.immutable) (get_from q e.sstables))) stored
        ∙ prefer-if (bytes_eq k q) v _ _)
