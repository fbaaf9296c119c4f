-- ===== src/Base/ByteOrder.antt =====
-- Byte strings and the order in which Go compares strings, byte by byte.
use Prim.Native.Nat.{ℕ}
use mathlib.Core.Path.{◌≡◌, refl}
use mathlib.Core.Bool.{Bool, true, false}
use mathlib.Core.List.{List, [], ◌∷◌}
use native.Mathlib.Omega.{arith}
use distributed_key_value_st.Base.Tests.{ltb, ◌==◌, if◌then◌else◌}

abbrev pub Bytes : Type 0
Bytes = List ℕ

-- `x <= y` of two strings.
unfoldable pub bytes_leb : Bytes → Bytes → Bool
bytes_leb [] ys = true
bytes_leb (x ∷ xs) [] = false
bytes_leb (x ∷ xs) (y ∷ ys) = let rest = bytes_leb xs ys in if x == y then rest else ltb x y

unfoldable pub bytes_eq : Bytes → Bytes → Bool
bytes_eq [] [] = true
bytes_eq [] (y ∷ ys) = false
bytes_eq (x ∷ xs) [] = false
bytes_eq (x ∷ xs) (y ∷ ys) = let rest = bytes_eq xs ys in if x == y then rest else false

pub bytes_eq_refl : (xs : Bytes) → bytes_eq xs xs ≡ true
unfolding bytes_eq
bytes_eq_refl [] = refl
bytes_eq_refl (x ∷ xs) = ground (arith, bytes_eq_refl xs)

pub bytes_eq→≡ : (xs ys : Bytes) → bytes_eq xs ys ≡ true → xs ≡ ys
unfolding bytes_eq
bytes_eq→≡ [] [] h = refl
bytes_eq→≡ [] (y ∷ ys) h = ground arith
bytes_eq→≡ (x ∷ xs) [] h = ground arith
bytes_eq→≡ (x ∷ xs) (y ∷ ys) h = ground (arith, bytes_eq→≡ xs ys)

pub bytes_eq_sym : (xs ys : Bytes) → bytes_eq xs ys ≡ bytes_eq ys xs
unfolding bytes_eq
bytes_eq_sym [] [] = refl
bytes_eq_sym [] (y ∷ ys) = refl
bytes_eq_sym (x ∷ xs) [] = refl
bytes_eq_sym (x ∷ xs) (y ∷ ys) = ground (arith, bytes_eq_sym xs ys)

pub bytes_leb_refl : (xs : Bytes) → bytes_leb xs xs ≡ true
unfolding bytes_leb
bytes_leb_refl [] = refl
bytes_leb_refl (x ∷ xs) = ground (arith, bytes_leb_refl xs)

pub bytes_leb_trans :
    (xs ys zs : Bytes) → bytes_leb xs ys ≡ true → bytes_leb ys zs ≡ true → bytes_leb xs zs ≡ true
unfolding bytes_leb
bytes_leb_trans [] ys zs a b = refl
bytes_leb_trans (x ∷ xs) [] zs a b = ground arith
bytes_leb_trans (x ∷ xs) (y ∷ ys) [] a b = ground arith
bytes_leb_trans (x ∷ xs) (y ∷ ys) (z ∷ zs) a b = ground (arith, bytes_leb_trans xs ys zs)

pub bytes_leb_antisym : (xs ys : Bytes) → bytes_leb xs ys ≡ true → bytes_leb ys xs ≡ true → xs ≡ ys
unfolding bytes_leb
bytes_leb_antisym [] [] a b = refl
bytes_leb_antisym [] (y ∷ ys) a b = ground arith
bytes_leb_antisym (x ∷ xs) [] a b = ground arith
bytes_leb_antisym (x ∷ xs) (y ∷ ys) a b = ground (arith, bytes_leb_antisym xs ys)

pub bytes_leb_total : (xs ys : Bytes) → bytes_leb xs ys ≡ false → bytes_leb ys xs ≡ true
unfolding bytes_leb
bytes_leb_total [] ys h = ground arith
bytes_leb_total (x ∷ xs) [] h = refl
bytes_leb_total (x ∷ xs) (y ∷ ys) h = ground (arith, bytes_leb_total xs ys)
