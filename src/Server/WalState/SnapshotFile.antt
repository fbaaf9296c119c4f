-- ===== src/Server/WalState/SnapshotFile.antt =====
-- server/walstate.go: the file that a snapshot is kept in.
use distributed_key_value_st.Storage.Codec.Words.{
  read_uint64-put_uint64, read_full-append, length-put_uint64,
}
use distributed_key_value_st.Storage.Codec.{read_uint64, read_full, put_uint32, put_uint64}
use distributed_key_value_st.Server.WalState.{
  decode_snapshot_header, decode_snapshot_file, encode_snapshot_file,
}
use distributed_key_value_st.Base.{
  refl, append-nil, [], ◌∙◌, append_assoc, sym, ap, length-append, ◌++◌, false, ltb, arith, ◌+◌,
  some, ◌≡◌, ◌<◌, length, ℕ, Bytes,
}

length-encode_snapshot_file :
    (bytes : Bytes) (i t : ℕ) → length (encode_snapshot_file bytes i t) ≡ 16 + length bytes
unfolding encode_snapshot_file put_uint64 put_uint32
length-encode_snapshot_file bytes i t = omega arith

-- A snapshot file gives back the data, the index and the term that it was made of, and its header
-- alone gives the same index and term. Index and term fit in a uint64.
pub decode_snapshot_file-encode :
    (bytes : Bytes) (i t : ℕ)
    → i < 18446744073709551616
    → t < 18446744073709551616
    → (decode_snapshot_file (encode_snapshot_file bytes i t) ≡ some (bytes, i, t))
      × (decode_snapshot_header (encode_snapshot_file bytes i t) ≡ some (i, t))
unfolding decode_snapshot_file decode_snapshot_header encode_snapshot_file
decode_snapshot_file-encode bytes i t hi ht =
    let size = length-encode_snapshot_file bytes i t in
    let enough : ltb (length (encode_snapshot_file bytes i t)) 16 ≡ false = ground (arith, size) in
    let words = put_uint64 i ++ put_uint64 t in
    let sixteen : 16 ≡ length words = omega (
      arith,
      length-append (put_uint64 i) (put_uint64 t),
      length-put_uint64 i,
      length-put_uint64 t,
    ) in
    let front : read_full 16 (put_uint64 i ++ (put_uint64 t ++ bytes)) ≡ some (words, bytes) =
      ap (read_full 16) (sym (append_assoc (put_uint64 i) (put_uint64 t) bytes))
      ∙ (ap (λ n. read_full n (words ++ bytes)) sixteen ∙ read_full-append words bytes) in
    let last : read_uint64 (put_uint64 t) ≡ some (t, []) =
      ap read_uint64 (sym (append-nil (put_uint64 t))) ∙ read_uint64-put_uint64 t [] ht in
    (
      rw
          (
            enough,
            read_uint64-put_uint64 i (put_uint64 t ++ bytes) hi,
            read_uint64-put_uint64 t bytes ht,
          )
          refl,
      rw (front, read_uint64-put_uint64 i (put_uint64 t) hi, last) refl,
    )
