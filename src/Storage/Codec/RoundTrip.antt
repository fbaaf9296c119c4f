-- ===== src/Storage/Codec/RoundTrip.antt =====
-- Decoding an encoded snapshot.
use distributed_key_value_st.Base.{
  ℕ, zero, suc, ◌≤◌, ◌<◌, ◌≡◌, refl, List, [], ◌∷◌, ◌++◌, map, some, length, Bytes, arith,
  length-append,
}
use distributed_key_value_st.Storage.Memtable.{MemEntry, kind_put}
use distributed_key_value_st.Storage.Codec.{
  length_uint32, put_uint32, encode_snapshot, decode_record, decode_records, decode_snapshot,
}
use distributed_key_value_st.Storage.Codec.Words.{read_uint32-put_uint32, read_full-append}

-- The key and the value are short enough for their lengths to fit in a uint32.
abbrev pub Fits : List MemEntry → Type 0
Fits [] = Unit {0}
Fits (e ∷ es) = ((length e.key < 4294967296) × (length e.value < 4294967296)) × Fits es

-- What is left of an entry in a snapshot.
abbrev pub restored : MemEntry → MemEntry
restored e = record { key = e.key; value = e.value; kind = kind_put; seq = 0 }

decode_record-encode :
    (e : MemEntry) (rest : Bytes)
    → length e.key < 4294967296
    → length e.value < 4294967296
    → decode_record (
        put_uint32 (length_uint32 e.key)
        ++ (e.key ++ (put_uint32 (length_uint32 e.value) ++ (e.value ++ rest))))
      ≡ some (restored e, rest)
unfolding decode_record
decode_record-encode e rest hk hv =
    let k : length_uint32 e.key ≡ length e.key = omega arith in
    let v : length_uint32 e.value ≡ length e.value = omega arith in
    let a =
      read_uint32-put_uint32 (length e.key)
        (e.key ++ (put_uint32 (length e.value) ++ (e.value ++ rest))) hk in
    let b = read_uint32-put_uint32 (length e.value) (e.value ++ rest) hv in
    rw
      (
        k,
        v,
        a,
        read_full-append e.key (put_uint32 (length e.value) ++ (e.value ++ rest)),
        b,
        read_full-append e.value rest,
      )
      refl

encode_snapshot-length : (es : List MemEntry) → length es ≤ length (encode_snapshot es)
unfolding encode_snapshot put_uint32
encode_snapshot-length [] = omega arith
encode_snapshot-length (e ∷ es) = omega (
  arith,
  encode_snapshot-length es,
  length-append e.key (put_uint32 (length_uint32 e.value) ++ (e.value ++ encode_snapshot es)),
  length-append e.value (encode_snapshot es),
)

decode_records-encode :
    (es : List MemEntry) (fuel : ℕ)
    → length es ≤ fuel
    → Fits es
    → decode_records fuel (encode_snapshot es) ≡ some (map restored es)
unfolding decode_records encode_snapshot put_uint32
decode_records-encode [] fuel h f = refl
decode_records-encode (e ∷ es) zero h f = absurd (omega arith)
decode_records-encode (e ∷ es) (suc fuel) h ((hk, hv), f) =
    rw
      (
        decode_record-encode e (encode_snapshot es) hk hv,
        decode_records-encode es fuel (omega arith) f,
      )
      refl

-- Decoding an encoded list of entries gives back their keys and values in order, as live entries,
-- when every key and value is shorter than 2 ^ 32 bytes.
pub decode_snapshot-encode :
    (es : List MemEntry) → Fits es → decode_snapshot (encode_snapshot es) ≡ some (map restored es)
unfolding decode_snapshot
decode_snapshot-encode es f =
    decode_records-encode es (length (encode_snapshot es)) (encode_snapshot-length es) f
