-- ===== src/Wal/Truncate.antt =====
-- wal/wal.go: TruncateSuffix and TruncatePrefix against the list of the entries.
use distributed_key_value_st.Wal.Holds.{Holds, read_segments-Holds}
use distributed_key_value_st.Wal.Batch.{write_entry-Keeps, read_all-Keeps, Keeps, Marshalled}
use distributed_key_value_st.Wal.Record.Reading.{Written}
use distributed_key_value_st.Raft.MemState.{keep_after, keep_up_to}
use distributed_key_value_st.Wal.{
  write_entry, read_all, create_file, create_segment, rewrite_entry, replace_with, truncate_prefix,
  Segments, rewrite, Wal, truncate_suffix, ProtoLaws, Proto,
}
use distributed_key_value_st.Base.{
  append_assoc, subst, inr, refl, inl, some, ltb, leb, ◌+◌, append-nil, true, [], Bool-cases, ◌++◌,
  ◌∷◌, ◌≡◌, ℕ, Bool, List, Bytes,
}
use distributed_key_value_st.Raft.Types.{LogEntry}

module _ (p : Proto) (laws : ProtoLaws p) where
  Written-Marshalled : (c : Bytes) (es : List LogEntry) → Written p laws c es → Marshalled p es
  Written-Marshalled c [] w = tt
  Written-Marshalled c (e ∷ es) (d, rest, m, same, w) = ((d, m), Written-Marshalled rest es w)

  Marshalled-append :
      (xs ys : List LogEntry) → Marshalled p xs → Marshalled p ys → Marshalled p (xs ++ ys)
  Marshalled-append [] ys a b = b
  Marshalled-append (x ∷ xs) ys (m, a) b = (m, Marshalled-append xs ys a b)

  pub Holds-Marshalled :
      (segments : Segments) (name size : ℕ) (es : List LogEntry)
      → Holds p laws segments name size es
      → Marshalled p es
  Holds-Marshalled [] name size es h = elim h [ ]
  Holds-Marshalled ((m, c) ∷ segments) name size es (inl (alone, here, long, w)) =
      Written-Marshalled c es w
  Holds-Marshalled ((m, c) ∷ segments) name size es (inr (below, front, back, same, w, h)) =
      rw same (
        Marshalled-append front back (Written-Marshalled c front w)
          (Holds-Marshalled segments name size back h))

  keep_up_to-Marshalled :
      (k : ℕ) (es : List LogEntry) → Marshalled p es → Marshalled p (keep_up_to k es)
  unfolding keep_up_to
  keep_up_to-Marshalled k [] m = tt
  keep_up_to-Marshalled k (e ∷ es) (m, ms) = elim (Bool-cases (leb e.index k)) [
    | inl t ↦ rw t (m, keep_up_to-Marshalled k es ms)
    | inr t ↦ rw t (keep_up_to-Marshalled k es ms)
  ]

  keep_after-Marshalled :
      (k : ℕ) (es : List LogEntry) → Marshalled p es → Marshalled p (keep_after k es)
  unfolding keep_after
  keep_after-Marshalled k [] m = tt
  keep_after-Marshalled k (e ∷ es) (m, ms) = elim (Bool-cases (ltb k e.index)) [
    | inl t ↦ rw t (m, keep_after-Marshalled k es ms)
    | inr t ↦ rw t (keep_after-Marshalled k es ms)
  ]

  -- After a rewrite that succeeded the log holds the entries.
  abbrev pub Rewritten : Wal × Bool → ℕ → List LogEntry → Type 0
  Rewritten r name es = (r.1 ≡ true) × Keeps p laws r.0 name es × (read_all p r.0 ≡ some es)

  rewrite-Rewritten :
      (keep : List LogEntry) (w : Wal) (name : ℕ) (es : List LogEntry)
      → Keeps p laws w name es
      → Marshalled p keep
      → Rewritten (rewrite p keep w) name (es ++ keep)
  unfolding rewrite rewrite_entry
  rewrite-Rewritten [] w name es k m =
      rw (append-nil es) (refl, k, read_all-Keeps p laws w name es k)
  rewrite-Rewritten (e ∷ keep) w name es k ((d, m), ms) =
      let (done, k', last) = write_entry-Keeps p laws w name es e d k m in
      let here : rewrite_entry p e w ≡ write_entry e.index d (w, true) =
        rw (m, rewrite_entry) refl in
      let later =
        rewrite-Rewritten keep (write_entry e.index d (w, true)).0 name (es ++ e ∷ []) k' ms in
      rw (here, done)
        (subst (λ x. Rewritten (rewrite p keep (write_entry e.index d (w, true)).0) name x)
          (append_assoc es (e ∷ []) keep) later)

  replace_with-Rewritten :
      (first last : ℕ) (keep : List LogEntry)
      → Marshalled p keep
      → Rewritten (replace_with p first last keep) first keep
  unfolding replace_with create_segment create_file
  replace_with-Rewritten first last keep m =
      rewrite-Rewritten keep
        (record { segments = (first, []) ∷ []; current = some first; size = 0; last_index = last })
        first [] (record { is_open = refl; held = inl (refl, refl, refl, refl) }) m

  pub truncate_suffix_reads :
      (k : ℕ) (w : Wal) (name : ℕ) (es : List LogEntry)
      → Keeps p laws w name es
      → Rewritten (truncate_suffix p k w) 1 (keep_up_to k es)
  unfolding truncate_suffix
  truncate_suffix_reads k w name es h =
      let before = read_segments-Holds p laws w.segments name w.size es h.held in
      let m = Holds-Marshalled w.segments name w.size es h.held in
      rw (before, truncate_suffix)
        (replace_with-Rewritten 1 0 (keep_up_to k es) (keep_up_to-Marshalled k es m))

  pub truncate_prefix_reads :
      (k : ℕ) (w : Wal) (name : ℕ) (es : List LogEntry)
      → Keeps p laws w name es
      → Rewritten (truncate_prefix p k w) (k + 1) (keep_after k es)
  unfolding truncate_prefix
  truncate_prefix_reads k w name es h =
      let before = read_segments-Holds p laws w.segments name w.size es h.held in
      let m = Holds-Marshalled w.segments name w.size es h.held in
      rw (before, truncate_prefix)
        (replace_with-Rewritten (k + 1) k (keep_after k es) (keep_after-Marshalled k es m))

  -- The truncations of a log that holds some entries succeed, and ReadAll then gives the entries that
  -- are kept: up to the given index after TruncateSuffix, which leaves them in a segment 1, and above
  -- it after TruncatePrefix, which leaves them in a segment named by the next index.
  pub truncations_read :
      (k : ℕ) (w : Wal) (name : ℕ) (es : List LogEntry)
      → Keeps p laws w name es
      → Rewritten (truncate_suffix p k w) 1 (keep_up_to k es)
        × Rewritten (truncate_prefix p k w) (k + 1) (keep_after k es)
  truncations_read k w name es h =
      (truncate_suffix_reads k w name es h, truncate_prefix_reads k w name es h)
