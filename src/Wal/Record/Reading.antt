-- ===== src/Wal/Record/Reading.antt =====
-- wal/wal.go: what readSegment finds in a segment that was written record by record.
use distributed_key_value_st.Wal.{ProtoLaws, Proto}
use distributed_key_value_st.Storage.Codec.Words.{read_full-append, read_uint32-put_uint32}
use distributed_key_value_st.Storage.Codec.{length_uint32, read_full, read_uint32, put_uint32}
use distributed_key_value_st.Wal.Record.{
  read_segment, read_loop, encode_record, read_record, checksum_ieee,
}
use distributed_key_value_st.Base.{
  ◌∙◌, zero, append-nil, length-take, [], ◌/◌, subst, sym, ◌∷◌, ap, ◌≤◌, ◌*◌, length-append, List,
  ◌^◌, ◌%◌, suc, ltb, refl, append_assoc, true, none, take, ◌==◌, ℕ, some, ◌+◌, arith, ◌≡◌, ◌++◌,
  ◌<◌, length, Bytes,
}
use distributed_key_value_st.Raft.Types.{LogEntry}

pub length-encode_record : (d : Bytes) → length (encode_record d) ≡ 8 + length d
unfolding encode_record put_uint32
length-encode_record d = omega arith

checksum_ieee-lt : (d : Bytes) → checksum_ieee d < 4294967296
unfolding checksum_ieee
checksum_ieee-lt d = omega arith

pub read_record-encode_record :
    (d rest : Bytes)
    → length d < 2147483648
    → read_record (encode_record d ++ rest) ≡ some (d, rest)
unfolding read_record encode_record
read_record-encode_record d rest h =
    let size : length_uint32 d ≡ length d = omega arith in
    let sum = put_uint32 (checksum_ieee d) in
    let same : (checksum_ieee d == checksum_ieee d) ≡ true = ground arith in
    rw
      (
        append_assoc (put_uint32 (length_uint32 d)) (sum ++ d) rest,
        append_assoc sum d rest,
        size,
        read_uint32-put_uint32 (length d) (sum ++ (d ++ rest)) (omega arith),
        read_uint32-put_uint32 (checksum_ieee d) (d ++ rest) (checksum_ieee-lt d),
        read_full-append d rest,
        same,
      )
      refl

read_full-short : (n : ℕ) (bytes : Bytes) → length bytes < n → read_full n bytes ≡ none
unfolding read_full
read_full-short n bytes h = let short : ltb (length bytes) n ≡ true = ground arith in rw short refl

-- A record that was cut off is no record.
pub read_record-cut :
    (d : Bytes) (k : ℕ)
    → length d < 2147483648
    → k < length (encode_record d)
    → read_record (take k (encode_record d)) ≡ none
unfolding read_record encode_record put_uint32 read_uint32
read_record-cut d zero h lt = refl
read_record-cut d (suc zero) h lt = refl
read_record-cut d (suc (suc zero)) h lt = refl
read_record-cut d (suc (suc (suc zero))) h lt = refl
read_record-cut d (suc (suc (suc (suc zero)))) h lt = refl
read_record-cut d (suc (suc (suc (suc (suc zero))))) h lt = refl
read_record-cut d (suc (suc (suc (suc (suc (suc zero)))))) h lt = refl
read_record-cut d (suc (suc (suc (suc (suc (suc (suc zero))))))) h lt = refl
read_record-cut d (suc (suc (suc (suc (suc (suc (suc (suc k)))))))) h lt =
    let n = length d % 2 ^ 32 in
    let size : n % 256
          + 256 * (n / 256 % 256 + 256 * (n / 256 / 256 % 256 + 256 * (n / 256 / 256 / 256 % 256)))
        ≡ length d =
      omega arith in
    let short = read_full-short (length d) (take k d) (omega (arith, length-take k d, lt)) in
    rw (size, short) refl

module _ (p : Proto) (laws : ProtoLaws p) where
  -- The bytes are the records of the entries, one after the other.
  abbrev pub Written : Bytes → List LogEntry → Type 0
  Written c [] = c ≡ []
  Written c (e ∷ es) =
      (d : Bytes) × (rest : Bytes) × (p.marshal e ≡ some d)
      × (c ≡ encode_record d ++ rest)
      × Written rest es

  pub Written-append :
      (c : Bytes) (es : List LogEntry) (e : LogEntry) (d : Bytes)
      → Written c es
      → p.marshal e ≡ some d
      → Written (c ++ encode_record d) (es ++ e ∷ [])
  Written-append c [] e d w m =
      (d, [], m, ap (λ x. x ++ encode_record d) w ∙ sym (append-nil (encode_record d)), refl)
  Written-append c (x ∷ es) e d (dx, rest, mx, same, w) m = (
    dx,
    rest ++ encode_record d,
    mx,
    ap (λ x. x ++ encode_record d) same ∙ append_assoc (encode_record dx) rest (encode_record d),
    Written-append rest es e d w m,
  )

  -- The loop reads the records and then stops, if what follows them is no record.
  read_loop-Written :
      (c : Bytes) (es : List LogEntry) (tail : Bytes) (fuel : ℕ)
      → Written c es
      → read_record tail ≡ none
      → length es ≤ fuel
      → read_loop p.unmarshal fuel (c ++ tail) ≡ some es
  unfolding read_loop
  read_loop-Written c [] tail zero w stop l = refl
  read_loop-Written c [] tail (suc fuel) w stop l =
      subst (λ x. read_loop p.unmarshal (suc fuel) (x ++ tail) ≡ some []) (sym w)
        (rw (stop, read_loop) refl)
  read_loop-Written c (e ∷ es) tail zero w stop l = absurd (omega arith)
  read_loop-Written c (e ∷ es) tail (suc fuel) (d, rest, m, same, w) stop l =
      let here = read_record-encode_record d (rest ++ tail) (laws.small e d m) in
      let later = read_loop-Written rest es tail fuel w stop (omega arith) in
      subst (λ x. read_loop p.unmarshal (suc fuel) (x ++ tail) ≡ some (e ∷ es)) (sym same)
        (rw
          (append_assoc (encode_record d) rest tail, here, read_loop, laws.round_trip e d m, later)
          refl)

  pub Written-length : (c : Bytes) (es : List LogEntry) → Written c es → length es ≤ length c
  Written-length c [] w = omega arith
  Written-length c (e ∷ es) (d, rest, m, same, w) = rw same (
      omega (
        arith,
        length-append (encode_record d) rest,
        length-encode_record d,
        Written-length rest es w,
      ))

  -- Reading a segment gives the entries whose records it begins with, up to the first place where
  -- there is no record.
  pub read_segment-Written :
      (c : Bytes) (es : List LogEntry) (tail : Bytes)
      → Written c es
      → read_record tail ≡ none
      → read_segment p.unmarshal (c ++ tail) ≡ some es
  unfolding read_segment
  read_segment-Written c es tail w stop =
      read_loop-Written c es tail (length (c ++ tail)) w stop
        (omega (arith, length-append c tail, Written-length c es w))

  pub read_segment-clean :
      (c : Bytes) (es : List LogEntry) → Written c es → read_segment p.unmarshal c ≡ some es
  unfolding read_record read_uint32
  read_segment-clean c es w =
      ap (read_segment p.unmarshal) (sym (append-nil c)) ∙ read_segment-Written c es [] w refl
