-- ===== src/Wal/Holds.antt =====
-- wal/wal.go: which entries the segment files hold, and what writing to them does.
use distributed_key_value_st.Wal.Record.Reading.{
  Written-append, length-encode_record, read_segment-clean, Written,
}
use distributed_key_value_st.Wal.Record.{encode_record}
use distributed_key_value_st.Wal.{
  append_file, Segments, read_segments, create_file, ProtoLaws, Proto,
}
use distributed_key_value_st.Base.{
  none, append_assoc, ◌∙◌, sym, refl, append-nil, Bool-cases, length-append, ltb, false, true, ◌⊎◌,
  ap, inr, Option-cases, ◌==◌, arith, ◌++◌, [], inl, ◌≤◌, ◌∷◌, length, ◌+◌, some, ◌<◌, ◌≡◌, List, ℕ,
  Bytes,
}
use distributed_key_value_st.Raft.Types.{LogEntry}

-- Every segment has at most `limit` bytes.
abbrev pub AllWithin : ℕ → Segments → Type 0
AllWithin limit [] = Unit {0}
AllWithin limit ((m, c) ∷ segments) = (length c ≤ limit) × AllWithin limit segments

pub create_file-AllWithin :
    (n limit : ℕ) (segments grown : Segments)
    → create_file n segments ≡ some grown
    → AllWithin limit segments
    → AllWithin limit grown
unfolding create_file
create_file-AllWithin n limit [] grown h a =
    let same : grown ≡ (n, []) ∷ [] = ground (arith, h) in rw same (omega arith, tt)
create_file-AllWithin n limit ((m, c) ∷ segments) grown h (a, as_) =
    elim (Option-cases (create_file n segments)) [
      | inl e ↦
          let same : grown ≡ (n, []) ∷ (m, c) ∷ segments = ground (arith, h, e) in
          rw same (omega arith, (a, as_))
      | inr (rest, e) ↦ elim (Bool-cases (ltb n m)) [
        | inl t ↦
            let same : grown ≡ (n, []) ∷ (m, c) ∷ segments = ground (arith, h, e, t) in
            rw same (omega arith, (a, as_))
        | inr t ↦
            let same : grown ≡ (m, c) ∷ rest = ground (arith, h, e, t) in
            rw same (a, create_file-AllWithin n limit segments rest e as_)
      ]
    ]

module _ (p : Proto) (laws : ProtoLaws p) where
  -- The segments hold the entries in order: the last one, `name`, is `size` bytes long, and the
  -- names of the others are below it.
  abbrev pub Holds : Segments → ℕ → ℕ → List LogEntry → Type 0
  Holds [] name size es = ⊥
  Holds ((m, c) ∷ segments) name size es =
      ((segments ≡ []) × (m ≡ name) × (size ≡ length c) × Written p laws c es)
      ⊎ ((m < name)
          × (front : List LogEntry) × (back : List LogEntry) × (es ≡ front ++ back)
          × Written p laws c front
          × Holds segments name size back)

  pub read_segments-Holds :
      (segments : Segments) (name size : ℕ) (es : List LogEntry)
      → Holds segments name size es
      → read_segments p segments ≡ some es
  unfolding read_segments
  read_segments-Holds [] name size es h = elim h [ ]
  read_segments-Holds ((m, c) ∷ segments) name size es (inl (alone, here, long, w)) =
      rw (alone, read_segment-clean p laws c es w) (ap some (append-nil es))
  read_segments-Holds ((m, c) ∷ segments) name size es (inr (below, front, back, same, w, h)) =
      rw (read_segment-clean p laws c front w, read_segments-Holds segments name size back h, same)
        refl

  pub append_file-Holds :
      (segments : Segments) (name size : ℕ) (es : List LogEntry) (e : LogEntry) (d : Bytes)
      → Holds segments name size es
      → p.marshal e ≡ some d
      → Holds
          (append_file name (encode_record d) segments)
          name
          (size + (8 + length d))
          (es ++ e ∷ [])
  unfolding append_file
  append_file-Holds [] name size es e d h mar = elim h [ ]
  append_file-Holds ((m, c) ∷ segments) name size es e d (inl (alone, here, long, w)) mar =
      let t : (name == m) ≡ true = ground (arith, here) in
      let long' : size + (8 + length d) ≡ length (c ++ encode_record d) =
        omega (arith, long, length-append c (encode_record d), length-encode_record d) in
      rw t (inl (alone, here, long', Written-append p laws c es e d w mar))
  append_file-Holds ((m, c) ∷ segments) name size es e d (inr (below, front, back, same, w, h))
        mar =
      let t : (name == m) ≡ false = ground (arith, below) in
      let more = append_file-Holds segments name size back e d h mar in
      let same' = ap (λ x. x ++ e ∷ []) same ∙ append_assoc front back (e ∷ []) in
      rw t (inr (below, front, back ++ e ∷ [], same', w, more))

  -- A name above that of the last segment is free, and the new segment becomes the last one.
  pub create_file-Holds :
      (segments : Segments) (name size : ℕ) (es : List LogEntry) (n : ℕ)
      → Holds segments name size es
      → name < n
      → (grown : Segments) × (create_file n segments ≡ some grown) × Holds grown n 0 es
  unfolding create_file
  create_file-Holds [] name size es n h lt = elim h [ ]
  create_file-Holds ((m, c) ∷ segments) name size es n (inl (alone, here, long, w)) lt =
      let ne : (n == m) ≡ false = ground (arith, here) in
      let over : ltb n m ≡ false = ground (arith, here) in
      (
        (m, c) ∷ (n, []) ∷ [],
        rw (alone, create_file, ne, over) refl,
        inr (omega (arith, here), es, [], sym (append-nil es), w, inl (refl, refl, refl, refl)),
      )
  create_file-Holds ((m, c) ∷ segments) name size es n (inr (below, front, back, same, w, h)) lt =
      let ne : (n == m) ≡ false = ground (arith, below) in
      let over : ltb n m ≡ false = ground (arith, below) in
      let (grown, made, held) = create_file-Holds segments name size back n h lt in
      (
        (m, c) ∷ grown,
        rw (ne, over, made) refl,
        inr (omega (arith, below), front, back, same, w, held),
      )

  -- The name of the last segment is taken.
  pub create_file-exists :
      (segments : Segments) (name size : ℕ) (es : List LogEntry)
      → Holds segments name size es
      → create_file name segments ≡ none
  unfolding create_file
  create_file-exists [] name size es h = elim h [ ]
  create_file-exists ((m, c) ∷ segments) name size es (inl (alone, here, long, w)) =
      let t : (name == m) ≡ true = ground (arith, here) in rw t refl
  create_file-exists ((m, c) ∷ segments) name size es (inr (below, front, back, same, w, h)) =
      let t : (name == m) ≡ false = ground (arith, below) in
      let over : ltb name m ≡ false = ground (arith, below) in
      rw (t, over, create_file-exists segments name size back h) refl

  pub append_file-AllWithin :
      (segments : Segments) (name size limit : ℕ) (es : List LogEntry) (bytes : Bytes)
      → Holds segments name size es
      → size + length bytes ≤ limit
      → AllWithin limit segments
      → AllWithin limit (append_file name bytes segments)
  unfolding append_file
  append_file-AllWithin [] name size limit es bytes h room a = tt
  append_file-AllWithin ((m, c) ∷ segments) name size limit es bytes (inl (alone, here, long, w))
        room (a, as_) =
      let t : (name == m) ≡ true = ground (arith, here) in
      rw t (omega (arith, long, length-append c bytes), as_)
  append_file-AllWithin ((m, c) ∷ segments) name size limit es bytes
        (inr (below, front, back, same, w, h)) room (a, as_) =
      let t : (name == m) ≡ false = ground (arith, below) in
      rw t (a, append_file-AllWithin segments name size limit back bytes h room as_)
