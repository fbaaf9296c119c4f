-- ===== src/Wal/Record.antt =====
-- wal/wal.go: one record of a segment, [length uint32][crc32 uint32][payload], and readSegment.
pub mod Reading
use distributed_key_value_st.Base.{
  zero, ◌/◌, suc, none, ◌==◌, length, if◌then◌else◌, some, ◌>>=◌, [], ◌^◌, List, ◌%◌, ◌∷◌, ◌++◌,
  Option, ℕ, Bytes,
}
use Prim.Native.Nat.{bit_xor}
use distributed_key_value_st.Storage.Codec.{put_uint32, read_uint32, read_full, length_uint32}
use distributed_key_value_st.Raft.Types.{LogEntry}

abbrev pub header_size : ℕ
header_size = 8

-- hash/crc32: ChecksumIEEE, bit by bit.
unfoldable pub crc_bits : ℕ → ℕ → ℕ
crc_bits zero c = c
crc_bits (suc n) c = crc_bits n (if c % 2 == 0 then c / 2 else bit_xor (c / 2) 0xedb88320)

unfoldable pub crc_bytes : Bytes → ℕ → ℕ
crc_bytes [] c = c
crc_bytes (b ∷ bs) c = crc_bytes bs (crc_bits 8 (bit_xor c b))

unfoldable pub checksum_ieee : Bytes → ℕ
checksum_ieee bytes = bit_xor (crc_bytes bytes 0xffffffff) 0xffffffff % 2 ^ 32

unfoldable pub encode_record : Bytes → Bytes
encode_record payload =
    put_uint32 (length_uint32 payload) ++ (put_uint32 (checksum_ieee payload) ++ payload)

-- One round of readSegment: `none` ends the loop.
unfoldable pub read_record : Bytes → Option (Bytes × Bytes)
read_record bytes = do
  (size, r1) ← read_uint32 bytes
  (expected, r2) ← read_uint32 r1
  (payload, r3) ← read_full size r2
  if checksum_ieee payload == expected then some (payload, r3) else none

module _ (unmarshal : Bytes → Option LogEntry) where
  -- A payload that is no LogEntry is an error.
  unfoldable pub read_loop : ℕ → Bytes → Option (List LogEntry)
  read_loop zero bytes = some []
  read_loop (suc fuel) bytes = elim (read_record bytes) [
    | none ↦ some []
    | some (payload, rest) ↦
        let later = read_loop fuel rest in (do e ← unmarshal payload; es ← later; some (e ∷ es))
  ]

  -- A record takes eight bytes at least, so that the number of bytes is fuel enough.
  unfoldable pub read_segment : Bytes → Option (List LogEntry)
  read_segment bytes = read_loop (length bytes) bytes
