-- ===== src/Wal/Crash.antt =====
-- wal/wal.go: segments whose last record is not whole.
use distributed_key_value_st.Wal.Holds.{Holds}
use distributed_key_value_st.Wal.Batch.{read_all-Keeps, Keeps}
use distributed_key_value_st.Wal.Record.Reading.{
  read_segment-clean, read_record-cut, read_segment-Written, Written,
}
use distributed_key_value_st.Wal.Record.{header_size, read_segment, encode_record, read_record}
use distributed_key_value_st.Wal.{
  Segments, last_of, append_file, write_record, open_last, read_segments, write_entry, append,
  read_all, Wal, open_wal, ProtoLaws, Proto,
}
use distributed_key_value_st.Base.{
  inr, inl, append_assoc, ◌==◌, false, refl, arith, ltb, true, ◌∙◌, take, ◌≤◌, append-nil, ◌+◌, sym,
  ap, ◌<◌, [], length, none, some, ◌∷◌, ◌++◌, ◌≡◌, ℕ, List, Bytes,
}
use distributed_key_value_st.Raft.Types.{LogEntry}

module _ (p : Proto) (laws : ProtoLaws p) where
  -- A write that is cut off after any number of bytes leaves all earlier entries of the segment
  -- readable and nothing else. The segment consists of the records of these entries, and the payload
  -- that was being written is one of Marshal.
  pub cut_write :
      (c : Bytes) (es : List LogEntry) (e : LogEntry) (d : Bytes) (k : ℕ)
      → Written p laws c es
      → p.marshal e ≡ some d
      → k < length (encode_record d)
      → read_segment p.unmarshal (c ++ take k (encode_record d)) ≡ some es
  cut_write c es e d k w m lt =
      read_segment-Written p laws c es (take k (encode_record d)) w
        (read_record-cut d k (laws.small e d m) lt)

  -- No bytes behind the tail make a record of it: its checksum is wrong.
  abbrev pub Corrupt : Bytes → Type 0
  Corrupt tail = (rest : Bytes) → read_record (tail ++ rest) ≡ none

  -- A single segment that a corrupt tail ends.
  abbrev pub Damaged : Wal → ℕ → List LogEntry → Type 0
  Damaged w name es =
      (w.current ≡ some name)
      × (c : Bytes) × (tail : Bytes) × (w.segments ≡ (name, c ++ tail) ∷ [])
      × Written p laws c es
      × Corrupt tail

  Damaged-reads :
      (w : Wal) (name : ℕ) (es : List LogEntry) → Damaged w name es → read_all p w ≡ some es
  unfolding read_all read_segments
  Damaged-reads w name es (o, c, tail, same, written, bad) =
      let stop : read_record tail ≡ none = ap read_record (sym (append-nil tail)) ∙ bad [] in
      rw (same, read_segment-Written p laws c es tail written stop) (ap some (append-nil es))

  -- Open takes the segment with its tail.
  pub open_wal-Damaged :
      (name : ℕ) (c tail : Bytes) (es : List LogEntry)
      → Written p laws c es
      → Corrupt tail
      → (w : Wal) × (open_wal p ((name, c ++ tail) ∷ []) ≡ some w)
        × Damaged w name es
        × (w.size ≡ length (c ++ tail))
  unfolding open_wal open_last
  open_wal-Damaged name c tail es written bad =
      let stop : read_record tail ≡ none = ap read_record (sym (append-nil tail)) ∙ bad [] in
      (
        record {
          segments = (name, c ++ tail) ∷ [];
          current = some name;
          size = length (c ++ tail);
          last_index = last_of p es;
        },
        rw (read_segment-Written p laws c es tail written stop) refl,
        (refl, c, tail, refl, written, bad),
        refl,
      )

  append-Damaged :
      (limit : ℕ) (w : Wal) (name : ℕ) (es : List LogEntry) (e : LogEntry) (d : Bytes)
      → Damaged w name es
      → p.marshal e ≡ some d
      → w.size + (8 + length d) ≤ limit
      → ((append p limit e w).1 ≡ true)
        × Damaged (append p limit e w).0 name es
        × ((append p limit e w).0.size ≡ w.size + (8 + length d))
  unfolding append write_entry write_record append_file
  append-Damaged limit w name es e d (o, c, tail, same, written, bad) m room =
      let t : ltb limit (w.size + (header_size + length d)) ≡ false = ground arith in
      let here : (name == name) ≡ true = ground arith in
      let longer = append_assoc c tail (encode_record d) in
      let bad' = λ (rest : Bytes).
        ap read_record (append_assoc tail (encode_record d) rest) ∙ bad (encode_record d ++ rest) in
      rw (m, append, t, o, same, here)
        (
          refl,
          (o, c, tail ++ encode_record d, ap (λ x. (name, x) ∷ []) longer, written, bad'),
          refl,
        )

  -- An entry that is appended behind a corrupt tail is lost: Open succeeds, Append of the entry
  -- succeeds, and ReadAll still ends before the tail. There is one segment, it has room for the entry,
  -- and the entry can be marshalled.
  pub append_behind_tail_lost :
      (limit name : ℕ) (c tail : Bytes) (es : List LogEntry) (e : LogEntry) (d : Bytes)
      → Written p laws c es
      → Corrupt tail
      → p.marshal e ≡ some d
      → length (c ++ tail) + (8 + length d) ≤ limit
      → (w : Wal) × (open_wal p ((name, c ++ tail) ∷ []) ≡ some w)
        × ((append p limit e w).1 ≡ true)
        × (read_all p (append p limit e w).0 ≡ some es)
  append_behind_tail_lost limit name c tail es e d written bad m room =
      let (w, opened, damaged, size) = open_wal-Damaged name c tail es written bad in
      let (done, damaged', grown) =
        append-Damaged limit w name es e d damaged m (omega (arith, size, room)) in
      (w, opened, done, Damaged-reads (append p limit e w).0 name es damaged')

  open_last-Holds :
      (all segments : Segments) (name size : ℕ) (es : List LogEntry)
      → Holds p laws segments name size es
      → (w : Wal) × (open_last p all segments ≡ some w)
        × (w.segments ≡ all)
        × (w.current ≡ some name)
        × (w.size ≡ size)
  unfolding open_last
  open_last-Holds all [] name size es h = elim h [ ]
  open_last-Holds all ((m, c) ∷ []) name size es (inl (alone, here, long, written)) = (
    record { segments = all; current = some m; size = length c; last_index = last_of p es },
    rw (read_segment-clean p laws c es written) refl,
    refl,
    ap some here,
    sym long,
  )
  open_last-Holds all ((m, c) ∷ []) name size es (inr (below, front, back, same, written, h)) =
      elim h [ ]
  open_last-Holds all ((m, c) ∷ t ∷ segments) name size es (inl (alone, here, long, written)) =
      absurd (cc alone)
  open_last-Holds all ((m, c) ∷ t ∷ segments) name size es
        (inr (below, front, back, same, written, h)) =
      open_last-Holds all (t ∷ segments) name size back h

  -- Opening the segments of a log again gives a log that holds the same entries and goes on in the
  -- same segment, when every record is whole.
  pub open_wal-Keeps :
      (old : Wal) (name : ℕ) (es : List LogEntry)
      → Keeps p laws old name es
      → (w : Wal) × (open_wal p old.segments ≡ some w)
        × Keeps p laws w name es
        × (read_all p w ≡ some es)
  unfolding open_wal
  open_wal-Keeps old name es k =
      let (w, opened, files, o, size) =
        open_last-Holds old.segments old.segments name old.size es k.held in
      let held : Holds p laws w.segments name w.size es = rw (files, size) k.held in
      let k' : Keeps p laws w name es = record { is_open = o; held = held } in
      (
        w,
        open_wal-open_last old.segments name old.size es k.held ∙ opened,
        k',
        read_all-Keeps p laws w name es k',
      )
    where
      open_wal-open_last :
          (segments : Segments) (name size : ℕ) (es : List LogEntry)
          → Holds p laws segments name size es
          → open_wal p segments ≡ open_last p segments segments
      open_wal-open_last [] name size es h = elim h [ ]
      open_wal-open_last (s ∷ segments) name size es h = refl
