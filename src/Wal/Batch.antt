-- ===== src/Wal/Batch.antt =====
-- wal/wal.go: Append and AppendBatch against the list of the entries that the log holds.
use distributed_key_value_st.Wal.Record.{header_size}
use distributed_key_value_st.Wal.Holds.{
  create_file-exists, read_segments-Holds, append_file-Holds, Holds, create_file-Holds,
}
use distributed_key_value_st.Wal.{
  append_batch, read_all, append, write_record, create_segment, write_entry, Wal, ProtoLaws, Proto,
}
use distributed_key_value_st.Base.{
  ◌⊎◌, false, inr, ap, inl, subst, ltb, append_assoc, Bool-cases, append-nil, Bool, refl, length,
  ◌+◌, ◌++◌, some, [], true, ◌<◌, arith, ◌≡◌, ◌≤◌, ◌∷◌, List, ℕ, Bytes,
}
use distributed_key_value_st.Raft.Types.{LogEntry}

-- The indexes rise strictly, from above `n`.
abbrev pub Rising : ℕ → List LogEntry → Type 0
Rising n [] = Unit {0}
Rising n (e ∷ es) = (n < e.index) × Rising e.index es

module _ (p : Proto) where
  -- Marshal succeeds.
  abbrev pub Marshalled : List LogEntry → Type 0
  Marshalled [] = Unit {0}
  Marshalled (e ∷ es) = ((d : Bytes) × (p.marshal e ≡ some d)) × Marshalled es

  -- The record of each entry alone fits in a segment.
  abbrev pub EachFits : ℕ → List LogEntry → Type 0
  EachFits limit [] = Unit {0}
  EachFits limit (e ∷ es) =
      ((d : Bytes) → p.marshal e ≡ some d → 8 + length d ≤ limit) × EachFits limit es

-- The record of the entry does not take the open segment past the limit.
abbrev pub HasRoom : Proto → ℕ → Wal → LogEntry → Type 0
HasRoom p limit w e = (d : Bytes) → p.marshal e ≡ some d → w.size + (8 + length d) ≤ limit

-- The indexes rise strictly from above the name of the open segment; the first may be that name, if
-- its record has room there.
abbrev pub Ready : Proto → ℕ → Wal → ℕ → List LogEntry → Type 0
Ready p limit w name [] = Unit {0}
Ready p limit w name (e ∷ es) =
    ((name < e.index) ⊎ ((name ≡ e.index) × HasRoom p limit w e)) × Rising e.index es

pub Rising-Ready :
    (p : Proto) (limit : ℕ) (w : Wal) (name n : ℕ) (es : List LogEntry)
    → name ≤ n
    → Rising n es
    → Ready p limit w name es
Rising-Ready p limit w name n [] h r = tt
Rising-Ready p limit w name n (e ∷ es) h (lt, r) = (inl (omega arith), r)

module _ (p : Proto) (laws : ProtoLaws p) where
  -- The log has a segment open, named `name`, and holds the entries.
  pub record Keeps (w : Wal) (name : ℕ) (es : List LogEntry) : Type 0 where
    pub is_open : w.current ≡ some name
    pub held : Holds p laws w.segments name w.size es

  pub write_entry-Keeps :
      (w : Wal) (name : ℕ) (es : List LogEntry) (e : LogEntry) (d : Bytes)
      → Keeps w name es
      → p.marshal e ≡ some d
      → ((write_entry e.index d (w, true)).1 ≡ true)
        × Keeps (write_entry e.index d (w, true)).0 name (es ++ e ∷ [])
        × ((write_entry e.index d (w, true)).0.last_index ≡ e.index)
  unfolding write_entry write_record
  write_entry-Keeps w name es e d k m =
      let o = k.is_open in
      rw o (
        refl,
        record {
          is_open = refl;
          held = append_file-Holds p laws w.segments name w.size es e d k.held m;
        },
        refl,
      )

  pub create_segment-Keeps :
      (w : Wal) (name : ℕ) (es : List LogEntry) (n : ℕ)
      → Keeps w name es
      → name < n
      → ((create_segment n w).1 ≡ true)
        × Keeps (create_segment n w).0 n es
        × ((create_segment n w).0.size ≡ 0)
  unfolding create_segment
  create_segment-Keeps w name es n k lt =
      let (grown, made, held) = create_file-Holds p laws w.segments name w.size es n k.held lt in
      rw (made, create_segment) (refl, record { is_open = refl; held = held }, refl)

  -- What an append leaves: it has succeeded, and the log holds the entry as well.
  abbrev pub Appended : Wal × Bool → LogEntry → List LogEntry → Type 0
  Appended r e es =
      (r.1 ≡ true)
      × ((name : ℕ) × (name ≤ e.index) × Keeps r.0 name (es ++ e ∷ []))
      × (r.0.last_index ≡ e.index)

  pub append-Keeps :
      (limit : ℕ) (w : Wal) (name : ℕ) (es : List LogEntry) (e : LogEntry) (d : Bytes)
      → Keeps w name es
      → p.marshal e ≡ some d
      → (name < e.index) ⊎ ((name ≡ e.index) × HasRoom p limit w e)
      → Appended (append p limit e w) e es
  unfolding append
  append-Keeps limit w name es e d k m start =
      elim (Bool-cases (ltb limit (w.size + (header_size + length d)))) [
        | inl t ↦
            let lt : name < e.index = elim start [
              | inl above ↦ above
              | inr (same, room) ↦ absurd (ground (arith, t, room d m))
            ] in
            let (made, k', empty) = create_segment-Keeps w name es e.index k lt in
            let fresh : create_segment e.index w ≡ ((create_segment e.index w).0, true) =
              ap (λ b. ((create_segment e.index w).0, b)) made in
            let (done, k'', last) =
              write_entry-Keeps (create_segment e.index w).0 e.index es e d k' m in
            rw (m, append, t, fresh) (done, (e.index, omega arith, k''), last)
        | inr t ↦
            let (done, k'', last) = write_entry-Keeps w name es e d k m in
            let le : name ≤ e.index = elim start [
              | inl above ↦ omega arith
              | inr (same, room) ↦ omega (arith, same)
            ] in
            rw (m, append, t) (done, (name, le, k''), last)
      ]

  -- AppendBatch succeeds, and the log then holds the batch behind what it held. The entries can be marshalled, and their indexes rise strictly from above the
  -- name of the open segment, where the first may be that name if its record has room there.
  pub append_batch-Keeps :
      (limit : ℕ) (batch : List LogEntry) (w : Wal) (name : ℕ) (es : List LogEntry)
      → Keeps w name es
      → Marshalled p batch
      → Ready p limit w name batch
      → ((append_batch p limit batch w).1 ≡ true)
        × ((name' : ℕ) × Keeps (append_batch p limit batch w).0 name' (es ++ batch))
  unfolding append_batch
  append_batch-Keeps limit [] w name es k m r = (refl, (name, rw (append-nil es) k))
  append_batch-Keeps limit (e ∷ batch) w name es k ((d, m), ms) (start, r) =
      let (done, (name', le, k'), last) = append-Keeps limit w name es e d k m start in
      let (ok, (name'', k'')) =
        append_batch-Keeps limit batch (append p limit e w).0 name' (es ++ e ∷ []) k' ms
          (Rising-Ready p limit (append p limit e w).0 name' e.index batch le r) in
      let joined = append_assoc es (e ∷ []) batch in
      rw done (
        ok,
        (
          name'',
          subst (λ x. Keeps (append_batch p limit batch (append p limit e w).0).0 name'' x) joined
              k'',
        ),
      )

  pub read_all-Keeps :
      (w : Wal) (name : ℕ) (es : List LogEntry) → Keeps w name es → read_all p w ≡ some es
  unfolding read_all
  read_all-Keeps w name es k = read_segments-Holds p laws w.segments name w.size es k.held

  -- AppendBatch succeeds, and ReadAll then gives what the log held before and the batch behind it. The
  -- entries can be marshalled, and their indexes rise strictly from above the name of the open
  -- segment, where the first may be that name if its record has room there.
  pub append_batch_then_read :
      (limit : ℕ) (batch : List LogEntry) (w : Wal) (name : ℕ) (es : List LogEntry)
      → Keeps w name es
      → Marshalled p batch
      → Ready p limit w name batch
      → ((append_batch p limit batch w).1 ≡ true)
        × (read_all p (append_batch p limit batch w).0 ≡ some (es ++ batch))
  append_batch_then_read limit batch w name es k m r =
      let (ok, (name', k')) = append_batch-Keeps limit batch w name es k m r in
      (ok, read_all-Keeps (append_batch p limit batch w).0 name' (es ++ batch) k')

  -- An entry whose index is the name of the open segment is refused, if its record would take the
  -- segment past the limit, and the log stays as it is: a segment of that name would have to be
  -- created, and exists.
  pub append_refused :
      (limit : ℕ) (w : Wal) (name : ℕ) (es : List LogEntry) (e : LogEntry) (d : Bytes)
      → Keeps w name es
      → p.marshal e ≡ some d
      → e.index ≡ name
      → limit < w.size + (8 + length d)
      → append p limit e w ≡ (w, false)
  unfolding append create_segment write_entry
  append_refused limit w name es e d k m same over =
      let t : ltb limit (w.size + (header_size + length d)) ≡ true = ground arith in
      let exists_ = create_file-exists p laws w.segments name w.size es k.held in
      rw (m, append, t, same, exists_, create_segment) refl
