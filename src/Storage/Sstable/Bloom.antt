-- ===== src/Storage/Sstable/Bloom.antt =====
-- storage/sstable.go: the Bloom filter. Its 1024 bytes are used as one flag each.
use distributed_key_value_st.Storage.Memtable.{MemEntry}
use distributed_key_value_st.Base.{
  zero, ◌+◌, not, ◌==◌, ◌&&◌, true, ◌%◌, ◌*◌, ◌^◌, if◌then◌else◌, Bool, ◌∷◌, ◌/◌, [], Bytes, List,
}
use Prim.Native.Nat.{suc, ℕ, bit_xor}

abbrev pub bloom_size : ℕ
bloom_size = 1024

abbrev pub bloom_hashes : ℕ
bloom_hashes = 7

-- hash/fnv: 32-bit FNV-1a.
unfoldable pub fnv32a : Bytes → ℕ → ℕ
fnv32a [] h = h
fnv32a (b ∷ bs) h = fnv32a bs (bit_xor h b * 16777619 % 2 ^ 32)

unfoldable pub hash : Bytes → ℕ → ℕ
hash key seed =
    fnv32a (seed / 2 ^ 24 % 256 ∷ seed / 2 ^ 16 % 256 ∷ seed / 2 ^ 8 % 256 ∷ seed % 256 ∷ key)
      2166136261

unfoldable pub zeros : ℕ → Bytes
zeros zero = []
zeros (suc n) = 0 ∷ zeros n

unfoldable pub new_bloom : Bytes
new_bloom = zeros bloom_size

-- `bits[i] |= 1`, and `bits[i]` with 0 past the end.
unfoldable pub set_bit : ℕ → Bytes → Bytes
set_bit i [] = []
set_bit zero (b ∷ bits) = (if b % 2 == 0 then b + 1 else b) ∷ bits
set_bit (suc i) (b ∷ bits) = b ∷ set_bit i bits

unfoldable pub bit_at : ℕ → Bytes → ℕ
bit_at i [] = 0
bit_at zero (b ∷ bits) = b
bit_at (suc i) (b ∷ bits) = bit_at i bits

-- The loops for the hash functions below `n`.
unfoldable pub add_hashes : ℕ → Bytes → Bytes → Bytes
add_hashes zero key bits = bits
add_hashes (suc n) key bits = set_bit (hash key n % bloom_size) (add_hashes n key bits)

unfoldable pub add : Bytes → Bytes → Bytes
add key bits = add_hashes bloom_hashes key bits

unfoldable pub check_hashes : ℕ → Bytes → Bytes → Bool
check_hashes zero key bits = true
check_hashes (suc n) key bits =
    check_hashes n key bits && not (bit_at (hash key n % bloom_size) bits == 0)

unfoldable pub might_contain : Bytes → Bytes → Bool
might_contain key bits = check_hashes bloom_hashes key bits

-- The calls of add in the loop of Write.
unfoldable pub add_all : List MemEntry → Bytes → Bytes
add_all [] bits = bits
add_all (e ∷ es) bits = add_all es (add e.key bits)
