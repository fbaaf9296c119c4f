-- ===== src/Wal/Bounds.antt =====
-- wal/wal.go: how large the segment files become.
use distributed_key_value_st.Wal.Record.Reading.{length-encode_record}
use distributed_key_value_st.Wal.Record.{header_size, encode_record}
use distributed_key_value_st.Wal.Batch.{
  HasRoom, Ready, Rising-Ready, create_segment-Keeps, append-Keeps, EachFits, Marshalled, Keeps,
}
use distributed_key_value_st.Wal.Holds.{append_file-AllWithin, create_file-AllWithin, AllWithin}
use distributed_key_value_st.Wal.{
  create_file, Wal, write_record, append_batch, append, create_segment, write_entry, ProtoLaws,
  Proto,
}
use distributed_key_value_st.Base.{
  ◌⊎◌, ap, [], arith, ◌++◌, ltb, Bool-cases, ◌∷◌, inr, true, inl, ◌<◌, ◌≤◌, length, some,
  Option-cases, ◌≡◌, ◌+◌, List, ℕ, Bytes,
}
use distributed_key_value_st.Raft.Types.{LogEntry}

module _ (p : Proto) (laws : ProtoLaws p) where
  write_entry-AllWithin :
      (limit : ℕ) (w : Wal) (name : ℕ) (es : List LogEntry) (index : ℕ) (d : Bytes)
      → Keeps p laws w name es
      → w.size + (8 + length d) ≤ limit
      → AllWithin limit w.segments
      → AllWithin limit (write_entry index d (w, true)).0.segments
  unfolding write_entry write_record
  write_entry-AllWithin limit w name es index d k room a =
      let o = k.is_open in
      let fits : w.size + length (encode_record d) ≤ limit =
        omega (arith, length-encode_record d) in
      rw o (
        append_file-AllWithin p laws w.segments name w.size limit es (encode_record d) k.held fits
          a)

  create_segment-AllWithin :
      (limit n : ℕ) (w : Wal)
      → AllWithin limit w.segments
      → AllWithin limit (create_segment n w).0.segments
  unfolding create_segment
  create_segment-AllWithin limit n w a = elim (Option-cases (create_file n w.segments)) [
    | inl e ↦ rw (e, create_segment) a
    | inr (grown, e) ↦ rw (e, create_segment) (create_file-AllWithin n limit w.segments grown e a)
  ]

  append-AllWithin :
      (limit : ℕ) (w : Wal) (name : ℕ) (es : List LogEntry) (e : LogEntry) (d : Bytes)
      → Keeps p laws w name es
      → p.marshal e ≡ some d
      → (name < e.index) ⊎ ((name ≡ e.index) × HasRoom p limit w e)
      → 8 + length d ≤ limit
      → AllWithin limit w.segments
      → AllWithin limit (append p limit e w).0.segments
  unfolding append
  append-AllWithin limit w name es e d k m start small a =
      elim (Bool-cases (ltb limit (w.size + (header_size + length d)))) [
        | inl t ↦
            let lt : name < e.index = elim start [
              | inl above ↦ above
              | inr (same, room) ↦ absurd (ground (arith, t, room d m))
            ] in
            let (made, k', empty) = create_segment-Keeps p laws w name es e.index k lt in
            let fresh : create_segment e.index w ≡ ((create_segment e.index w).0, true) =
              ap (λ b. ((create_segment e.index w).0, b)) made in
            rw (m, append, t, fresh)
              (write_entry-AllWithin limit (create_segment e.index w).0 e.index es e.index d k'
                (omega (arith, empty, small)) (create_segment-AllWithin limit e.index w a))
        | inr t ↦
            rw (m, append, t)
              (write_entry-AllWithin limit w name es e.index d k (ground (arith, t)) a)
      ]

  -- AppendBatch leaves no segment above the limit, if there was none before and the record of each
  -- entry alone fits in a segment. The log holds some entries, those of the batch can be marshalled,
  -- and their indexes rise strictly from above the name of the open segment, where the first may be
  -- that name if its record has room there.
  pub append_batch-AllWithin :
      (limit : ℕ) (batch : List LogEntry) (w : Wal) (name : ℕ) (es : List LogEntry)
      → Keeps p laws w name es
      → Marshalled p batch
      → Ready p limit w name batch
      → EachFits p limit batch
      → AllWithin limit w.segments
      → AllWithin limit (append_batch p limit batch w).0.segments
  unfolding append_batch
  append_batch-AllWithin limit [] w name es k m r f a = a
  append_batch-AllWithin limit (e ∷ batch) w name es k ((d, m), ms) (start, r) (f, fs) a =
      let (done, (name', le, k'), last) = append-Keeps p laws limit w name es e d k m start in
      rw done (
        append_batch-AllWithin limit batch (append p limit e w).0 name' (es ++ e ∷ []) k' ms
          (Rising-Ready p limit (append p limit e w).0 name' e.index batch le r) fs
          (append-AllWithin limit w name es e d k m start (f d m) a))
