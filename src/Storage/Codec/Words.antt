-- ===== src/Storage/Codec/Words.antt =====
-- Reading back what was written.
use distributed_key_value_st.Base.{
  refl, append_assoc, ◌^◌, ℕ, ◌+◌, ◌*◌, ◌/◌, ◌%◌, ◌<◌, ◌≡◌, ap, ◌∙◌, ◌++◌, some, false, ltb, length,
  drop, Bytes, arith, length-append, take-append, drop-append,
}
use distributed_key_value_st.Storage.Codec.{
  read_uint64, put_uint64, put_uint32, read_uint32, read_full,
}

word_digits :
    (n : ℕ)
    → n < 4294967296
    → n % 256
        + 256 * (n / 256 % 256 + 256 * (n / 256 / 256 % 256 + 256 * (n / 256 / 256 / 256 % 256)))
      ≡ n
word_digits n h = omega arith

pub read_uint32-put_uint32 :
    (n : ℕ) (rest : Bytes) → n < 4294967296 → read_uint32 (put_uint32 n ++ rest) ≡ some (n, rest)
unfolding read_uint32 put_uint32
read_uint32-put_uint32 n rest h = ap (λ m. some (m, rest)) (word_digits n h)

-- A uint32 is what is written of a larger number.
pub read_uint32-low :
    (n : ℕ) (rest : Bytes) → read_uint32 (put_uint32 n ++ rest) ≡ some (n % 2 ^ 32, rest)
unfolding read_uint32 put_uint32
read_uint32-low n rest = ap (λ m. some (m, rest)) (omega arith)

pub read_uint64-put_uint64 :
    (n : ℕ) (rest : Bytes)
    → n < 18446744073709551616
    → read_uint64 (put_uint64 n ++ rest) ≡ some (n, rest)
unfolding read_uint64 put_uint64
read_uint64-put_uint64 n rest h =
    let high : n / 2 ^ 32 < 4294967296 = omega arith in
    let whole : n % 2 ^ 32 + 2 ^ 32 * (n / 2 ^ 32) ≡ n = omega arith in
    rw
      (
        append_assoc (put_uint32 n) (put_uint32 (n / 2 ^ 32)) rest,
        read_uint32-low n (put_uint32 (n / 2 ^ 32) ++ rest),
        read_uint32-put_uint32 (n / 2 ^ 32) rest high,
        whole,
      )
      refl

pub length-put_uint32 : (n : ℕ) → length (put_uint32 n) ≡ 4
unfolding put_uint32
length-put_uint32 n = refl

pub length-put_uint64 : (n : ℕ) → length (put_uint64 n) ≡ 8
unfolding put_uint64 put_uint32
length-put_uint64 n = refl

pub read_full-append : (s rest : Bytes) → read_full (length s) (s ++ rest) ≡ some (s, rest)
unfolding read_full
read_full-append s rest =
    let long : ltb (length (s ++ rest)) (length s) ≡ false = ground (arith, length-append s rest) in
    rw long (
      ap some (
        ap (λ a. (a, drop (length s) (s ++ rest))) (take-append s rest)
        ∙ ap (λ a. (s, a)) (drop-append s rest)))
