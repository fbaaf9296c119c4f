-- ===== src/Storage/Sstable/Filter.antt =====
-- storage/sstable.go: the Bloom filter has no false negatives.
use distributed_key_value_st.Storage.Memtable.Order.{find}
use distributed_key_value_st.Storage.Memtable.{MemEntry}
use distributed_key_value_st.Storage.Sstable.Bloom.{
  bloom_size, hash, bloom_hashes, might_contain, bit_at, add, add_all, check_hashes, set_bit,
  new_bloom, add_hashes, zeros,
}
use distributed_key_value_st.Base.{
  inr, bytes_eq→≡, inl, bytes_eq, Bool-cases, some, refl, zero, ◌%◌, ◌∙◌, [], ap, ◌<◌, true, ◌≤◌,
  suc, ◌∷◌, arith, length, ◌≡◌, List, ℕ, Bytes,
}

set_bit-length : (i : ℕ) (bits : Bytes) → length (set_bit i bits) ≡ length bits
unfolding set_bit
set_bit-length i [] = refl
set_bit-length zero (b ∷ bits) = refl
set_bit-length (suc i) (b ∷ bits) = ap suc (set_bit-length i bits)

bit_at-set_bit : (i : ℕ) (bits : Bytes) → i < length bits → 0 < bit_at i (set_bit i bits)
unfolding set_bit bit_at
bit_at-set_bit i [] h = absurd (omega arith)
bit_at-set_bit zero (b ∷ bits) h = ground arith
bit_at-set_bit (suc i) (b ∷ bits) h = bit_at-set_bit i bits (omega arith)

-- No flag is taken away.
abbrev Covers : Bytes → Bytes → Type 0
Covers bits bits' = (j : ℕ) → bit_at j bits ≤ bit_at j bits'

set_bit-Covers : (i : ℕ) (bits : Bytes) → Covers bits (set_bit i bits)
unfolding set_bit bit_at
set_bit-Covers i [] j = omega arith
set_bit-Covers zero (b ∷ bits) zero = ground arith
set_bit-Covers zero (b ∷ bits) (suc j) = omega arith
set_bit-Covers (suc i) (b ∷ bits) zero = omega arith
set_bit-Covers (suc i) (b ∷ bits) (suc j) = set_bit-Covers i bits j

add_hashes-length : (n : ℕ) (key bits : Bytes) → length (add_hashes n key bits) ≡ length bits
unfolding add_hashes
add_hashes-length zero key bits = refl
add_hashes-length (suc n) key bits =
    set_bit-length (hash key n % bloom_size) (add_hashes n key bits) ∙ add_hashes-length n key bits

add_hashes-Covers : (n : ℕ) (key bits : Bytes) → Covers bits (add_hashes n key bits)
unfolding add_hashes
add_hashes-Covers zero key bits j = omega arith
add_hashes-Covers (suc n) key bits j = omega (
  arith,
  add_hashes-Covers n key bits j,
  set_bit-Covers (hash key n % bloom_size) (add_hashes n key bits) j,
)

check_hashes-Covers :
    (n : ℕ) (key bits bits' : Bytes)
    → Covers bits bits'
    → check_hashes n key bits ≡ true
    → check_hashes n key bits' ≡ true
unfolding check_hashes
check_hashes-Covers zero key bits bits' c h = refl
check_hashes-Covers (suc n) key bits bits' c h =
    ground (arith, check_hashes-Covers n key bits bits' c, c (hash key n % bloom_size))

check_hashes-add_hashes :
    (n : ℕ) (key bits : Bytes)
    → length bits ≡ 1024
    → check_hashes n key (add_hashes n key bits) ≡ true
unfolding check_hashes add_hashes
check_hashes-add_hashes zero key bits h = refl
check_hashes-add_hashes (suc n) key bits h =
    let i = hash key n % bloom_size in
    let before = add_hashes n key bits in
    let inside : i < length before = omega (arith, h, add_hashes-length n key bits) in
    let kept =
      check_hashes-Covers n key before (set_bit i before) (set_bit-Covers i before)
        (check_hashes-add_hashes n key bits h) in
    ground (arith, kept, bit_at-set_bit i before inside)

add_all-Covers : (es : List MemEntry) (bits : Bytes) → Covers bits (add_all es bits)
unfolding add_all add
add_all-Covers [] bits j = omega arith
add_all-Covers (e ∷ es) bits j = omega (
  arith,
  add_hashes-Covers bloom_hashes e.key bits j,
  add_all-Covers es (add_hashes bloom_hashes e.key bits) j,
)

pub add_all-length : (es : List MemEntry) (bits : Bytes) → length (add_all es bits) ≡ length bits
unfolding add_all add
add_all-length [] bits = refl
add_all-length (e ∷ es) bits =
    add_all-length es (add_hashes bloom_hashes e.key bits)
    ∙ add_hashes-length bloom_hashes e.key bits

zeros-length : (n : ℕ) → length (zeros n) ≡ n
unfolding zeros
zeros-length zero = refl
zeros-length (suc n) = ap suc (zeros-length n)

pub new_bloom-length : length new_bloom ≡ 1024
unfolding new_bloom
new_bloom-length = zeros-length 1024

add_all-find :
    (key : Bytes) (es : List MemEntry) (e : MemEntry) (bits : Bytes)
    → length bits ≡ 1024
    → find key es ≡ some e
    → might_contain key (add_all es bits) ≡ true
unfolding add_all add might_contain
add_all-find key [] e bits h f = absurd (cc f)
add_all-find key (x ∷ es) e bits h f = elim (Bool-cases (bytes_eq x.key key)) [
  | inl t ↦
      let same = bytes_eq→≡ x.key key t in
      let marked = check_hashes-add_hashes bloom_hashes key bits h in
      check_hashes-Covers bloom_hashes key (add_hashes bloom_hashes x.key bits)
        (add_all es (add_hashes bloom_hashes x.key bits))
        (add_all-Covers es (add_hashes bloom_hashes x.key bits)) (rw same marked)
  | inr t ↦
      let rest : find key es ≡ some e = ground (arith, t, f) in
      add_all-find key es e (add_hashes bloom_hashes x.key bits)
        (add_hashes-length bloom_hashes x.key bits ∙ h) rest
]

-- The filter of a table has no false negatives: it never denies a key that an entry of the table has.
pub might_contain-find :
    (key : Bytes) (es : List MemEntry) (e : MemEntry)
    → find key es ≡ some e
    → might_contain key (add_all es new_bloom) ≡ true
might_contain-find key es e f = add_all-find key es e new_bloom new_bloom-length f
