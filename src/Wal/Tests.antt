-- ===== src/Wal/Tests.antt =====
-- The theorems about the write-ahead log at concrete logs, with a message format of two numbers, a
-- byte and the payload.
pub mod Logs
use distributed_key_value_st.Storage.Codec.Words.{read_uint64-put_uint64}
use distributed_key_value_st.Storage.Codec.{read_uint64, put_uint32, put_uint64}
use distributed_key_value_st.Wal.{ProtoLaws, Proto}
use distributed_key_value_st.Base.{
  refl, arith, [], ◌>>=◌, ◌&&◌, length, ◌∷◌, none, ◌<◌, ◌==◌, ◌^◌, ◌++◌, Option, ltb, if◌then◌else◌,
  some, ◌≡◌, Bool, ℕ, Bytes,
}
use distributed_key_value_st.Raft.Types.{entry_config, entry_normal, LogEntry, EntryType}

pub type_byte : EntryType → ℕ
type_byte entry_normal = 0
type_byte entry_config = 1

pub type_of : ℕ → EntryType
type_of b = if b == 0 then entry_normal else entry_config

type_of-type_byte : (t : EntryType) → type_of (type_byte t) ≡ t
unfolding type_of type_byte
type_of-type_byte entry_normal = refl
type_of-type_byte entry_config = refl

pub message : LogEntry → Bytes
unfolding type_byte
message e = put_uint64 e.index ++ (put_uint64 e.term ++ (type_byte e.entry_type ∷ e.payload))

-- Numbers that fit in a uint64 and a short payload.
pub short : LogEntry → Bool
short e = ltb e.index (2 ^ 64) && (ltb e.term (2 ^ 64) && ltb (length e.payload) 1000)

pub entry_from : ℕ → ℕ → Bytes → Option LogEntry
unfolding type_of
entry_from index term [] = none
entry_from index term (b ∷ payload) =
    some (record { index = index; term = term; payload = payload; entry_type = type_of b })

abbrev pub plain : Proto
plain = record {
  marshal = λ e. if short e then some (message e) else none;
  unmarshal =
      λ d. (do (index, r1) ← read_uint64 d; (term, r2) ← read_uint64 r1; entry_from index term r2);
}

marshal_cases :
    (e : LogEntry) (d : Bytes)
    → plain.marshal e ≡ some d
    → (d ≡ message e) × (e.index < 2 ^ 64) × (e.term < 2 ^ 64) × (length e.payload < 1000)
unfolding short
marshal_cases e d h = ground (arith, h)

pub plain-ProtoLaws : ProtoLaws plain
unfolding message entry_from put_uint64 put_uint32 type_byte
plain-ProtoLaws = record {
  round_trip = λ e d h.
      let (same, hi, ht, hp) = marshal_cases e d h in
      let rest = type_byte e.entry_type ∷ e.payload in
      rw
        (
          same,
          read_uint64-put_uint64 e.index (put_uint64 e.term ++ rest) hi,
          read_uint64-put_uint64 e.term rest ht,
          type_of-type_byte e.entry_type,
        )
        refl;
  small = λ e d h. let (same, hi, ht, hp) = marshal_cases e d h in rw same (omega (arith, hp));
}
