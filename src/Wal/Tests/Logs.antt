-- ===== src/Wal/Tests/Logs.antt =====
-- The theorems about the write-ahead log at logs of one and two small segments.
use distributed_key_value_st.Wal.Crash.{Corrupt, cut_write, open_wal-Keeps, append_behind_tail_lost}
use distributed_key_value_st.Wal.Bounds.{append_batch-AllWithin}
use distributed_key_value_st.Wal.Holds.{AllWithin}
use distributed_key_value_st.Wal.{
  append_file, create_file, create_segment, write_record, read_all, write_entry, append, open_wal,
  append_batch, Wal,
}
use distributed_key_value_st.Wal.Batch.{
  append_batch_then_read, append_batch-Keeps, Marshalled, Ready, Keeps,
}
use distributed_key_value_st.Wal.Record.{
  crc_bits, crc_bytes, checksum_ieee, read_segment, encode_record, read_record,
}
use distributed_key_value_st.Wal.Record.Reading.{length-encode_record, Written}
use distributed_key_value_st.Storage.Codec.{read_full, read_uint32, put_uint32, put_uint64}
use distributed_key_value_st.Base.{
  suc, map, length-append, Bool-cases, ◌≤◌, length, take, refl, append-nil, arith, false, sym, inl,
  true, ◌^◌, ◌++◌, some, [], ltb, ◌≡◌, inr, ◌∷◌, List, ℕ, Bytes,
}
use distributed_key_value_st.Raft.Types.{entry_normal, LogEntry}
use distributed_key_value_st.Wal.Tests.{plain, plain-ProtoLaws, message, short}

abbrev pub entry : ℕ → ℕ → LogEntry
entry i b = record { index = i; term = 1; payload = b ∷ []; entry_type = entry_normal }

-- The record of an entry takes 26 bytes, so that a segment has room for one.
abbrev pub room : ℕ
room = 40

abbrev pub fresh : Wal
fresh = record { segments = (1, []) ∷ []; current = some 1; size = 0; last_index = 0 }

pub fresh-Keeps : Keeps plain plain-ProtoLaws fresh 1 []
fresh-Keeps = record { is_open = refl; held = inl (refl, refl, refl, refl) }

abbrev pub batch : List LogEntry
batch = entry 1 7 ∷ entry 2 8 ∷ []

marshalled :
    (i b : ℕ) → ltb i (2 ^ 64) ≡ true → plain.marshal (entry i b) ≡ some (message (entry i b))
unfolding short
marshalled i b h = rw h refl

message-length : (i b : ℕ) (d : Bytes) → plain.marshal (entry i b) ≡ some d → length d ≤ 18
unfolding short message put_uint64 put_uint32
message-length i b d h = elim (Bool-cases (ltb i (2 ^ 64))) [
  | inl t ↦
      let same : message (entry i b) ≡ d = ground (arith, marshalled i b t, h) in
      rw⁻¹ same (omega arith)
  | inr t ↦ ground (arith, t, h)
]

pub batch-Marshalled : Marshalled plain batch
batch-Marshalled =
    ((message (entry 1 7), marshalled 1 7 refl), ((message (entry 2 8), marshalled 2 8 refl), tt))

pub batch-Ready : Ready plain room fresh 1 batch
batch-Ready = (
  inr (refl, λ d h. let small = message-length 1 7 d h in omega (arith, small)),
  (omega arith, tt),
)

append_batch_then_read_example :
    ((append_batch plain room batch fresh).1 ≡ true)
    × (read_all plain (append_batch plain room batch fresh).0 ≡ some batch)
append_batch_then_read_example =
    append_batch_then_read plain plain-ProtoLaws room batch fresh 1 [] fresh-Keeps batch-Marshalled
      batch-Ready

-- The second entry has rolled the segment.
rolled : map (λ s. s.0) (append_batch plain room batch fresh).0.segments ≡ 1 ∷ 2 ∷ []
unfolding append_batch append write_entry write_record create_segment create_file append_file
    encode_record put_uint32 put_uint64 short message
rolled = refl

append_batch-AllWithin_example : AllWithin room (append_batch plain room batch fresh).0.segments
append_batch-AllWithin_example =
    append_batch-AllWithin plain plain-ProtoLaws room batch fresh 1 [] fresh-Keeps batch-Marshalled
      batch-Ready
      (
        λ d h. let small = message-length 1 7 d h in omega (arith, small),
        ((λ d h. let small = message-length 2 8 d h in omega (arith, small)), tt),
      )
      (omega arith, tt)

abbrev two_entries : Wal
two_entries = (append_batch plain room batch fresh).0

two_entries-Keeps : (name : ℕ) × Keeps plain plain-ProtoLaws two_entries name batch
two_entries-Keeps =
    (append_batch-Keeps plain plain-ProtoLaws room batch fresh 1 [] fresh-Keeps batch-Marshalled
      batch-Ready).1

open_wal-Keeps_example :
    (w : Wal) × (open_wal plain two_entries.segments ≡ some w)
    × Keeps plain plain-ProtoLaws w two_entries-Keeps.0 batch
    × (read_all plain w ≡ some batch)
open_wal-Keeps_example =
    open_wal-Keeps plain plain-ProtoLaws two_entries two_entries-Keeps.0 batch two_entries-Keeps.1

first_record : Bytes
first_record = encode_record (message (entry 1 7))

one_Written : Written plain plain-ProtoLaws first_record (entry 1 7 ∷ [])
unfolding first_record
one_Written = (
  message (entry 1 7),
  [],
  marshalled 1 7 refl,
  sym (append-nil (encode_record (message (entry 1 7)))),
  refl,
)

cut_write_example :
    read_segment plain.unmarshal (first_record ++ take 20 (encode_record (message (entry 2 8))))
    ≡ some (entry 1 7 ∷ [])
unfolding message put_uint64 put_uint32
cut_write_example =
    cut_write plain plain-ProtoLaws first_record (entry 1 7 ∷ []) (entry 2 8) (message (entry 2 8))
      20 one_Written (marshalled 2 8 refl)
      (omega (arith, length-encode_record (message (entry 2 8))))

-- A record of one byte, whose checksum is not 0.
abbrev bad_tail : Bytes
bad_tail = 1 ∷ 0 ∷ 0 ∷ 0 ∷ 0 ∷ 0 ∷ 0 ∷ 0 ∷ 5 ∷ []

bad_tail-Corrupt : Corrupt plain plain-ProtoLaws bad_tail
unfolding read_record read_uint32 read_full checksum_ieee crc_bytes crc_bits
bad_tail-Corrupt rest =
    let enough : ltb (suc (length rest)) 1 ≡ false = ground arith in rw enough refl

append_behind_tail_lost_example :
    (w : Wal) × (open_wal plain ((1, first_record ++ bad_tail) ∷ []) ≡ some w)
    × ((append plain 100 (entry 2 8) w).1 ≡ true)
    × (read_all plain (append plain 100 (entry 2 8) w).0 ≡ some (entry 1 7 ∷ []))
unfolding first_record message put_uint64 put_uint32
append_behind_tail_lost_example =
    append_behind_tail_lost plain plain-ProtoLaws 100 1 first_record bad_tail (entry 1 7 ∷ [])
      (entry 2 8) (message (entry 2 8)) one_Written bad_tail-Corrupt (marshalled 2 8 refl)
      (omega
        (arith, length-append first_record bad_tail, length-encode_record (message (entry 1 7))))
