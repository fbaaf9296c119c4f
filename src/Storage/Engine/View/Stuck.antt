-- ===== src/Storage/Engine/View/Stuck.antt =====
-- A memtable that was set aside and not written to a table.
use distributed_key_value_st.Base.{
  ◌<◌, ◌≡◌, refl, ap, ◌∙◌, true, false, List, [], ◌∷◌, none, some, Bytes, arith,
}
use distributed_key_value_st.Storage.Memtable.{Memtable, new_memtable}
use distributed_key_value_st.Storage.Engine.{
  Engine, Sstables, put, delete, flush_worker, rotate_and_flush, do_flush, flush_now, close,
}
use distributed_key_value_st.Storage.Engine.View.{TableLaws, view, WellFormed}
use distributed_key_value_st.Storage.Engine.View.Flush.{Same-trans, rotated-Same, do_flush-Same}

-- What happens to an engine that runs: a write, or a cycle of the flush worker.
pub data Event : Type 0 where
  putting : Bytes → Bytes → Event
  deleting : Bytes → Event
  flushing : Event

module _ {T : Type 0} ⦃files : Sstables T⦄ where
  abbrev pub step : Event → Engine T → Engine T
  step (putting k v) e = (put k v e).1
  step (deleting k) e = (delete k e).1
  step flushing e = flush_worker e

  abbrev pub steps : List Event → Engine T → Engine T
  steps [] e = e
  steps (x ∷ xs) e = steps xs (step x e)

  step_stuck :
      (x : Event) (e : Engine T) (m : Memtable)
      → e.immutable ≡ some m
      → ((step x e).immutable ≡ some m) × ((step x e).sstables ≡ e.sstables)
  unfolding put delete flush_worker rotate_and_flush
  step_stuck (putting k v) e m h = ground (arith, h)
  step_stuck (deleting k) e m h = ground (arith, h)
  step_stuck flushing e m h = ground (arith, h)

  -- A memtable that a flush has left in place, because it was empty or because the table could not be
  -- written, is never written later: whatever writes and cycles of the flush worker follow, it stays
  -- where it is and no table is added.
  pub unflushed_blocks :
      (xs : List Event) (e : Engine T) (m : Memtable)
      → e.immutable ≡ some m
      → ((steps xs e).immutable ≡ some m) × ((steps xs e).sstables ≡ e.sstables)
  unflushed_blocks [] e m h = (h, refl)
  unflushed_blocks (x ∷ xs) e m h =
      let (held, same) = step_stuck x e m h in
      let (held', same') = unflushed_blocks xs (step x e) m held in (held', same' ∙ same)

  closes :
      (e : Engine T)
      → e.closed ≡ false
      → 0 < e.active.size
      → close e
        ≡ do_flush (record e { closed = true; immutable = some e.active; active = new_memtable })
  unfolding close flush_now
  closes e open_ full = ground (arith, open_, full)

module _ {T : Type 0} ⦃files : Sstables T⦄ (laws : TableLaws files) where
  -- Closing an engine with writes in its active memtable drops a memtable that still waits to be
  -- flushed: afterwards the engine stands for what it would without that memtable. The engine is open
  -- and its layers are sorted.
  pub close_drops_immutable :
      (q : Bytes) (e : Engine T)
      → WellFormed laws e
      → e.closed ≡ false
      → 0 < e.active.size
      → view laws q (close e) ≡ view laws q (record e { immutable = none })
  close_drops_immutable q e w open_ full =
      let e' : Engine T = record e { closed = true; immutable = none } in
      let w' : WellFormed laws e' = record {
        active = w.active;
        immutable = tt;
        sstables = w.sstables;
      } in
      let e'' : Engine T = record e' { immutable = some e.active; active = new_memtable } in
      let r = rotated-Same laws e' w' refl in
      ap (view laws q) (closes e open_ full)
      ∙ (Same-trans laws e' e'' (do_flush e'') r (do_flush-Same laws e'' r.well_formed)).viewed q
