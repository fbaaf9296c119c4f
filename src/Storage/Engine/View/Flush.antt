-- ===== src/Storage/Engine/View/Flush.antt =====
-- Flushing a memtable to a table.
use distributed_key_value_st.Base.{
  subst, ◌≡◌, refl, sym, ap, ◌∙◌, Bool, true, false, List, [], ◌∷◌, map, none, some, if◌then◌else◌,
  ◌⊎◌, Bytes, bytes_eq, Bool-cases, Option-cases, inl, inr, arith, leb, ◌==◌, length,
}
use distributed_key_value_st.Storage.Memtable.{MemEntry, Memtable, new_memtable}
use distributed_key_value_st.Storage.Memtable.Order.{Sorted, Above}
use distributed_key_value_st.Storage.Engine.{
  compaction_threshold, Engine, Sstables, do_flush, rotate_and_flush, flush_worker,
}
use distributed_key_value_st.Storage.Engine.View.{filed, in_list, TableLaws, view, WellFormed}

pub in_list-filed : (q : Bytes) (es : List MemEntry) → in_list q (map filed es) ≡ in_list q es
in_list-filed q [] = refl
in_list-filed q (e ∷ es) = elim (Bool-cases (bytes_eq e.key q)) [
  | inl t ↦ rw t refl
  | inr f ↦ rw f (in_list-filed q es)
]

filed-Above : (k : Bytes) (es : List MemEntry) → Above k es → Above k (map filed es)
filed-Above k [] a = a
filed-Above k (e ∷ es) (a, rest) = (a, filed-Above k es rest)

pub filed-Sorted : (es : List MemEntry) → Sorted es → Sorted (map filed es)
filed-Sorted [] s = s
filed-Sorted (e ∷ es) (a, s) = (filed-Above e.key es a, filed-Sorted es s)

module _ {T : Type 0} ⦃files : Sstables T⦄ (laws : TableLaws files) where
  -- `m` is as well formed as `n`, and stands for the same map.
  pub record Same (n m : Engine T) : Type 0 where
    pub well_formed : WellFormed laws m
    pub viewed : (q : Bytes) → view laws q m ≡ view laws q n

  -- The table that a flush adds.
  flushed-Same :
      (e : Engine T) (m : Memtable) (t : T)
      → WellFormed laws e
      → e.immutable ≡ some m
      → files.write m.entries ≡ some t
      → Same e (record e { sstables = t ∷ e.sstables; immutable = none })
  flushed-Same e m t w held stored =
      let s : Sorted m.entries = rw held at w.immutable in
      let c = laws.written m.entries t s stored in
      record {
        well_formed = record {
          active = w.active;
          immutable = tt;
          sstables = (rw c (filed-Sorted m.entries s), w.sstables);
        };
        viewed = λ q.
            let seen : in_list q (laws.contents t) ≡ in_list q m.entries =
              ap (in_list q) c ∙ in_list-filed q m.entries in
            rw (held, seen) refl;
      }

  -- What a flush did, if anything.
  pub Flushed : Engine T → Type 0
  Flushed e =
      (m : Memtable) × (t : T) × (e.immutable ≡ some m)
      × (files.write m.entries ≡ some t)
      × (do_flush e ≡ record e { sstables = t ∷ e.sstables; immutable = none })

  do_flush-cases : (e : Engine T) → (do_flush e ≡ e) ⊎ Flushed e
  unfolding do_flush Flushed
  do_flush-cases e = elim (Option-cases e.immutable) [
    | inl n ↦ inl (ground (arith, n))
    | inr (m, n) ↦ elim (Bool-cases (m.size == 0)) [
      | inl empty ↦ inl (ground (arith, n, empty))
      | inr full ↦ elim (Option-cases (files.write m.entries)) [
        | inl bad ↦ inl (ground (arith, n, full, bad))
        | inr (t, ok) ↦ inr (m, t, n, ok, ground (arith, n, full, ok))
      ]
    ]
  ]

  Same-refl : (e : Engine T) → WellFormed laws e → Same e e
  Same-refl e w = record { well_formed = w; viewed = λ q. refl }

  -- A flush keeps the layers sorted and keeps what they stand for, whether there is anything to
  -- flush or not and whether the table can be written or not.
  pub do_flush-Same : (e : Engine T) → WellFormed laws e → Same e (do_flush e)
  unfolding Flushed
  do_flush-Same e w = elim (do_flush-cases e) [
    | inl same ↦ subst (Same e) (sym same) (Same-refl e w)
    | inr (m, t, held, stored, after) ↦
        subst (Same e) (sym after) (flushed-Same e m t w held stored)
  ]

  pub Same-trans : (a b c : Engine T) → Same a b → Same b c → Same a c
  Same-trans a b c x y = record {
    well_formed = y.well_formed;
    viewed = λ q. y.viewed q ∙ x.viewed q;
  }

  pub rotated-Same :
      (e : Engine T)
      → WellFormed laws e
      → e.immutable ≡ none
      → Same e (record e { immutable = some e.active; active = new_memtable })
  rotated-Same e w idle = record {
    well_formed = record { active = tt; immutable = w.active; sstables = w.sstables };
    viewed = λ q. rw idle refl;
  }

  signalled-Same : (e m : Engine T) (b : Bool) → Same e m → Same e (record m { compact_signal = b })
  signalled-Same e m b s = record {
    well_formed = record {
      active = s.well_formed.active;
      immutable = s.well_formed.immutable;
      sstables = s.well_formed.sstables;
    };
    viewed = s.viewed;
  }

  rotate_and_flush_busy :
      (e : Engine T) (m : Memtable) → e.immutable ≡ some m → rotate_and_flush e ≡ e
  unfolding rotate_and_flush
  rotate_and_flush_busy e m n = ground (arith, n)

  -- The engine with its memtable set aside.
  rotated : Engine T → Engine T
  rotated e = record e { immutable = some e.active; active = new_memtable }

  rotate_and_flush_idle :
      (e : Engine T)
      → e.immutable ≡ none
      → rotate_and_flush e ≡ (
          if leb compaction_threshold (length (do_flush (rotated e)).sstables)
          then record (do_flush (rotated e)) { compact_signal = true }
          else do_flush (rotated e))
  unfolding rotate_and_flush rotated
  rotate_and_flush_idle e n = ground (arith, n)

  pub rotate_and_flush-Same : (e : Engine T) → WellFormed laws e → Same e (rotate_and_flush e)
  unfolding rotated
  rotate_and_flush-Same e w = elim (Option-cases e.immutable) [
    | inr (m, n) ↦ subst (Same e) (sym (rotate_and_flush_busy e m n)) (Same-refl e w)
    | inl n ↦
        let e' = rotated e in
        let r = rotated-Same e w n in
        let f = Same-trans e e' (do_flush e') r (do_flush-Same e' r.well_formed) in
        subst (Same e) (sym (rotate_and_flush_idle e n))
          (elim (Bool-cases (leb compaction_threshold (length (do_flush e').sstables))) [
            | inl many ↦ rw many (signalled-Same e (do_flush e') true f)
            | inr few ↦ rw few f
          ])
  ]

  drained-Same : (e : Engine T) → WellFormed laws e → Same e (record e { flush_signal = false })
  drained-Same e w = record {
    well_formed = record { active = w.active; immutable = w.immutable; sstables = w.sstables };
    viewed = λ q. refl;
  }

  flush_worker_quiet : (e : Engine T) → e.flush_signal ≡ false → flush_worker e ≡ e
  unfolding flush_worker
  flush_worker_quiet e f = ground (arith, f)

  flush_worker_signalled :
      (e : Engine T)
      → e.flush_signal ≡ true
      → flush_worker e ≡ rotate_and_flush (record e { flush_signal = false })
  unfolding flush_worker
  flush_worker_signalled e t = ground (arith, t)

  -- A cycle of the flush worker, with or without a signal, keeps the layers sorted and keeps what
  -- they stand for.
  pub flush_worker-Same : (e : Engine T) → WellFormed laws e → Same e (flush_worker e)
  flush_worker-Same e w = elim (Bool-cases e.flush_signal) [
    | inr f ↦ subst (Same e) (sym (flush_worker_quiet e f)) (Same-refl e w)
    | inl t ↦
        let e' : Engine T = record e { flush_signal = false } in
        let d = drained-Same e w in
        subst (Same e) (sym (flush_worker_signalled e t))
          (Same-trans e e' _ d (rotate_and_flush-Same e' d.well_formed))
  ]
