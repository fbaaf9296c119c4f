-- ===== src/Storage/Memtable/Order.antt =====
-- storage/memtable.go: sorted tables, and binary search against a scan.
use distributed_key_value_st.Base.{
  ℕ, zero, suc, ◌<◌, ◌≡◌, inl, inr, refl, true, false, List, [], ◌∷◌, Option, none, some,
  if◌then◌else◌, length, arith, Bool-cases, Bytes, bytes_leb, bytes_eq, bytes_leb_trans,
  bytes_leb_total,
}
use distributed_key_value_st.Storage.Search.{
  FirstIndex, FirstIndex-unique, Monotone, search-FirstIndex,
}
use distributed_key_value_st.Storage.Memtable.{MemEntry, not_before, position}

-- `x < y` of two keys.
abbrev pub Before : Bytes → Bytes → Type 0
Before x y = bytes_leb y x ≡ false

-- Every key of the table is above `k`.
abbrev pub Above : Bytes → List MemEntry → Type 0
Above k [] = Unit {0}
Above k (e ∷ es) = Before k e.key × Above k es

-- The keys rise strictly.
abbrev pub Sorted : List MemEntry → Type 0
Sorted [] = Unit {0}
Sorted (e ∷ es) = Above e.key es × Sorted es

pub Before→leb : (x y : Bytes) → Before x y → bytes_leb x y ≡ true
Before→leb x y h = bytes_leb_total y x h

pub Before-trans : (x y z : Bytes) → bytes_leb x y ≡ true → Before y z → Before x z
Before-trans x y z a b = elim (Bool-cases (bytes_leb z x)) [
  | inl c ↦ let d = bytes_leb_trans z x y c a in absurd (cc (b, d))
  | inr c ↦ c
]

pub Above-lower :
    (x y : Bytes) (es : List MemEntry) → bytes_leb x y ≡ true → Above y es → Above x es
Above-lower x y [] a h = h
Above-lower x y (e ∷ es) a (h, hs) = (Before-trans x y e.key a h, Above-lower x y es a hs)

-- The first position of a key that is not below `k`, by a scan.
abbrev pub scan : Bytes → List MemEntry → ℕ
scan k [] = 0
scan k (e ∷ es) = let rest = scan k es in if bytes_leb k e.key then 0 else suc rest

-- The scanned insertion and lookup.
abbrev pub insert_sorted : MemEntry → List MemEntry → List MemEntry
insert_sorted e [] = e ∷ []
insert_sorted e (x ∷ xs) =
    let rest = insert_sorted e xs in
    if bytes_leb e.key x.key then if bytes_eq x.key e.key then e ∷ xs else e ∷ x ∷ xs else x ∷ rest

abbrev pub find : Bytes → List MemEntry → Option MemEntry
find k [] = none
find k (e ∷ es) = let rest = find k es in if bytes_eq e.key k then some e else rest

not_before-Above : (k : Bytes) (es : List MemEntry) (i : ℕ) → Above k es → not_before k es i ≡ true
unfolding not_before
not_before-Above k [] i h = refl
not_before-Above k (e ∷ es) zero (h, hs) = Before→leb k e.key h
not_before-Above k (e ∷ es) (suc i) (h, hs) = not_before-Above k es i hs

not_before-Monotone : (k : Bytes) (es : List MemEntry) → Sorted es → Monotone (not_before k es)
unfolding not_before
not_before-Monotone k [] s a b le h = refl
not_before-Monotone k (e ∷ es) (above, s) zero zero le h = h
not_before-Monotone k (e ∷ es) (above, s) zero (suc b) le h =
    not_before-Above k es b (Above-lower k e.key es h above)
not_before-Monotone k (e ∷ es) (above, s) (suc a) zero le h = absurd (omega arith)
not_before-Monotone k (e ∷ es) (above, s) (suc a) (suc b) le h =
    not_before-Monotone k es s a b (omega arith) h

fails_up :
    (k : Bytes) (e : MemEntry) (es : List MemEntry) (r : ℕ)
    → Before e.key k
    → ((a : ℕ) → a < r → not_before k es a ≡ false)
    → (a : ℕ) → a < suc r
    → not_before k (e ∷ es) a ≡ false
unfolding not_before
fails_up k e es r here up zero lt = here
fails_up k e es r here up (suc a) lt = up a (omega arith)

scan-FirstIndex :
    (k : Bytes) (es : List MemEntry) → FirstIndex (not_before k es) (length es) (scan k es)
unfolding not_before
scan-FirstIndex k [] = record {
  inside = omega arith;
  below = λ a lt. absurd (omega arith);
  at = λ lt. absurd (omega arith);
}
scan-FirstIndex k (e ∷ es) = elim (Bool-cases (bytes_leb k e.key)) [
  | inl t ↦
      rw t (record { inside = omega arith; below = λ a lt. absurd (omega arith); at = λ _. t })
  | inr f ↦
      let r = scan-FirstIndex k es in
      rw f (record {
        inside = omega (arith, r.inside);
        below = fails_up k e es (scan k es) f r.below;
        at = λ lt. r.at (omega arith);
      })
]

-- On a sorted table the binary search stops where a scan does.
pub position-scan : (k : Bytes) (es : List MemEntry) → Sorted es → position k es ≡ scan k es
unfolding position
position-scan k es s =
    FirstIndex-unique (not_before k es) (length es) _ _
      (search-FirstIndex (not_before k es) (not_before-Monotone k es s) (length es))
      (scan-FirstIndex k es)
