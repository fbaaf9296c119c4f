-- ===== src/Storage/Codec.antt =====
-- storage/snapshot.go: the wire format of a snapshot, a stream of records
-- [keyLen uint32][key][valLen uint32][val] that ends with the data.
pub mod Words
pub mod RoundTrip
use distributed_key_value_st.Base.{
  ℕ, zero, suc, ◌+◌, ◌*◌, ◌/◌, ◌%◌, ◌^◌, List, [], ◌∷◌, ◌++◌, Option, none, some, ltb,
  if◌then◌else◌, length, take, drop, Bytes, ◌>>=◌,
}
use distributed_key_value_st.Storage.Memtable.{MemEntry, kind_put}

-- binary.Write and binary.Read of a uint32 in little-endian order.
unfoldable pub put_uint32 : ℕ → Bytes
put_uint32 n = n % 256 ∷ n / 256 % 256 ∷ n / 256 / 256 % 256 ∷ n / 256 / 256 / 256 % 256 ∷ []

unfoldable pub read_uint32 : Bytes → Option (ℕ × Bytes)
read_uint32 (a ∷ b ∷ c ∷ d ∷ rest) = some (a + 256 * (b + 256 * (c + 256 * d)), rest)
read_uint32 _ = none

-- The same of a uint64.
unfoldable pub put_uint64 : ℕ → Bytes
put_uint64 n = put_uint32 n ++ put_uint32 (n / 2 ^ 32)

unfoldable pub read_uint64 : Bytes → Option (ℕ × Bytes)
read_uint64 bytes = do
  (low, r1) ← read_uint32 bytes
  (high, r2) ← read_uint32 r1
  some (low + 2 ^ 32 * high, r2)

-- io.ReadFull of `n` bytes.
unfoldable pub read_full : ℕ → Bytes → Option (Bytes × Bytes)
read_full n bytes = if ltb (length bytes) n then none else some (take n bytes, drop n bytes)

-- The conversion uint32(len(s)).
abbrev pub length_uint32 : Bytes → ℕ
length_uint32 s = length s % 2 ^ 32

unfoldable pub encode_snapshot : List MemEntry → Bytes
encode_snapshot [] = []
encode_snapshot (e ∷ es) =
    put_uint32 (length_uint32 e.key)
    ++ (e.key ++ (put_uint32 (length_uint32 e.value) ++ (e.value ++ encode_snapshot es)))

-- One record; `none` is an error.
unfoldable pub decode_record : Bytes → Option (MemEntry × Bytes)
decode_record bytes = do
  (key_len, r1) ← read_uint32 bytes
  (key, r2) ← read_full key_len r1
  (val_len, r3) ← read_uint32 r2
  (val, r4) ← read_full val_len r3
  some (record { key = key; value = val; kind = kind_put; seq = 0 }, r4)

-- The loop; with no bytes left the first read meets io.EOF and the loop ends.
unfoldable pub decode_records : ℕ → Bytes → Option (List MemEntry)
decode_records fuel [] = some []
decode_records zero (b ∷ bytes) = none
decode_records (suc fuel) (b ∷ bytes) = do
  (e, rest) ← decode_record (b ∷ bytes)
  es ← decode_records fuel rest
  some (e ∷ es)

-- A record takes at least eight bytes, so that the number of bytes is fuel enough.
unfoldable pub decode_snapshot : Bytes → Option (List MemEntry)
decode_snapshot bytes = decode_records (length bytes) bytes
