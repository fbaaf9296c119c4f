-- ===== src/Storage/Sstable/Records.antt =====
-- storage/sstable.go: reading back the entries of a data block.
use distributed_key_value_st.Storage.Engine.View.{filed}
use distributed_key_value_st.Storage.Codec.Words.{read_uint32-put_uint32, read_full-append}
use distributed_key_value_st.Storage.Codec.RoundTrip.{Fits}
use distributed_key_value_st.Storage.Codec.{length_uint32, read_full, put_uint32}
use distributed_key_value_st.Storage.Memtable.{kind_delete, kind_put, EntryKind, MemEntry}
use distributed_key_value_st.Storage.Sstable.{
  kind_byte, entry_kind, read_entry, write_entries, entry_size,
}
use distributed_key_value_st.Base.{
  append_assoc, length-append, refl, some, ◌++◌, ◌+◌, [], arith, ◌∷◌, ◌<◌, ◌≡◌, length, ◌*◌, ◌≤◌, ℕ,
  List, Bytes,
}

pub entry_kind-kind_byte : (k : EntryKind) → entry_kind (kind_byte k) ≡ k
unfolding entry_kind kind_byte
entry_kind-kind_byte kind_put = refl
entry_kind-kind_byte kind_delete = refl

-- What the entry looks like in the data block, in front of `rest`.
abbrev pub record_of : MemEntry → Bytes → Bytes
record_of e rest =
    put_uint32 (length_uint32 e.key)
    ++ (e.key ++ (put_uint32 (length_uint32 e.value) ++ (e.value ++ (kind_byte e.kind ∷ rest))))

read_kind : (b : ℕ) (rest : Bytes) → read_full 1 (b ∷ rest) ≡ some (b ∷ [], rest)
read_kind b rest = read_full-append (b ∷ []) rest

pub read_entry-record_of :
    (e : MemEntry) (rest : Bytes)
    → length e.key < 4294967296
    → length e.value < 4294967296
    → read_entry (record_of e rest) ≡ some (filed e, rest)
unfolding read_entry
read_entry-record_of e rest hk hv =
    let k : length_uint32 e.key ≡ length e.key = omega arith in
    let v : length_uint32 e.value ≡ length e.value = omega arith in
    let tail = e.value ++ (kind_byte e.kind ∷ rest) in
    let a =
      read_uint32-put_uint32 (length e.key) (e.key ++ (put_uint32 (length e.value) ++ tail)) hk in
    let b = read_uint32-put_uint32 (length e.value) tail hv in
    rw
      (
        k,
        v,
        a,
        read_full-append e.key (put_uint32 (length e.value) ++ tail),
        b,
        read_full-append e.value (kind_byte e.kind ∷ rest),
        read_kind (kind_byte e.kind) rest,
        entry_kind-kind_byte e.kind,
      )
      refl

pub length-record_of :
    (e : MemEntry) (rest : Bytes) → length (record_of e rest) ≡ entry_size e + length rest
unfolding entry_size put_uint32
length-record_of e rest = omega (
  arith,
  length-append e.key
      (put_uint32 (length_uint32 e.value) ++ (e.value ++ (kind_byte e.kind ∷ rest))),
  length-append e.value (kind_byte e.kind ∷ rest),
)

pub write_entries-append :
    (e : MemEntry) (es : List MemEntry) (rest : Bytes)
    → write_entries (e ∷ es) ++ rest ≡ record_of e (write_entries es ++ rest)
unfolding write_entries put_uint32
write_entries-append e es rest =
    rw
      (
        append_assoc e.key
            (put_uint32 (length_uint32 e.value)
              ++ (e.value ++ (kind_byte e.kind ∷ write_entries es)))
            rest,
        append_assoc e.value (kind_byte e.kind ∷ write_entries es) rest,
      )
      refl

pub length-write_entries :
    (e : MemEntry) (es : List MemEntry)
    → length (write_entries (e ∷ es)) ≡ entry_size e + length (write_entries es)
unfolding write_entries
length-write_entries e es = length-record_of e (write_entries es)

pub entry_size-nine : (e : MemEntry) → 9 ≤ entry_size e
unfolding entry_size
entry_size-nine e = omega arith

-- An entry takes nine bytes at least.
pub write_entries-count : (es : List MemEntry) → 9 * length es ≤ length (write_entries es)
write_entries-count [] = omega arith
write_entries-count (e ∷ es) =
    omega (arith, length-write_entries e es, write_entries-count es, entry_size-nine e)

-- A data block of less than 4 GiB has only entries whose lengths fit in a uint32.
pub write_entries-Fits : (es : List MemEntry) → length (write_entries es) < 4294967296 → Fits es
unfolding entry_size
write_entries-Fits [] h = tt
write_entries-Fits (e ∷ es) h =
    let total = length-write_entries e es in
    (
      (omega (arith, total, h), omega (arith, total, h)),
      write_entries-Fits es (omega (arith, total, h)),
    )
