-- ===== src/Storage/Merge/Rounds.antt =====
-- What a round of the merge leaves of the inputs.
use distributed_key_value_st.Base.{
  prefer, ◌≤◌, ◌<◌, ◌≡◌, ◌⊎◌, inl, inr, refl, sym, ap, ◌∙◌, true, false, List, [], ◌∷◌, map, none,
  some, if◌then◌else◌, length, arith, Bool-cases, Option-cases, Bytes, bytes_leb, bytes_eq,
  bytes_leb_refl, bytes_eq_refl, bytes_eq→≡,
}
use distributed_key_value_st.Storage.Memtable.{MemEntry}
use distributed_key_value_st.Storage.Memtable.Order.{Before, Above, Sorted, Above-lower, find}
use distributed_key_value_st.Storage.Memtable.Lookup.{find-Above, leb_and_neq}
use distributed_key_value_st.Storage.Merge.{smaller, min_head, newest_head, advance, total}
use distributed_key_value_st.Storage.Merge.Heads.{AllSorted, AllAbove, From, AllFrom, newest}

find-From :
    (k : Bytes) (e : MemEntry) (es : List MemEntry)
    → From k (e ∷ es)
    → Sorted (e ∷ es)
    → find k (e ∷ es) ≡ (if bytes_eq e.key k then some e else none)
find-From k e es from (above, s) = rw (find-Above k e.key es from above) refl

pub newest_head-newest :
    (k : Bytes) (inputs : List (List MemEntry))
    → AllFrom k inputs
    → AllSorted inputs
    → newest_head k inputs ≡ newest k inputs
unfolding newest_head
newest_head-newest k [] f s = refl
newest_head-newest k ([] ∷ inputs) (f, fs) (s, ss) = elim (Option-cases (newest k inputs)) [
  | inl n ↦ rw n (newest_head-newest k inputs fs ss ∙ n)
  | inr (x, n) ↦ rw n (newest_head-newest k inputs fs ss ∙ n)
]
newest_head-newest k ((e ∷ es) ∷ inputs) (f, fs) (s, ss) =
    rw (newest_head-newest k inputs fs ss) (elim (Option-cases (newest k inputs)) [
      | inl n ↦ rw n (sym (find-From k e es f s))
      | inr (x, n) ↦ rw n refl
    ])

find-advance :
    (k q : Bytes) (es : List MemEntry) → bytes_eq k q ≡ false → find q (advance k es) ≡ find q es
unfolding advance
find-advance k q [] ne = refl
find-advance k q (e ∷ es) ne = elim (Bool-cases (bytes_eq e.key k)) [
  | inl t ↦
      let same = bytes_eq→≡ e.key k t in
      let other : bytes_eq e.key q ≡ false = rw same ne in rw (t, other) refl
  | inr f ↦ rw f refl
]

pub newest-advance :
    (k q : Bytes) (inputs : List (List MemEntry))
    → bytes_eq k q ≡ false
    → newest q (map (advance k) inputs) ≡ newest q inputs
newest-advance k q [] ne = refl
newest-advance k q (es ∷ inputs) ne =
    ap (λ o. prefer o (find q (advance k es))) (newest-advance k q inputs ne)
    ∙ ap (prefer (newest q inputs)) (find-advance k q es ne)

advance-Sorted : (k : Bytes) (es : List MemEntry) → Sorted es → Sorted (advance k es)
unfolding advance
advance-Sorted k [] s = s
advance-Sorted k (e ∷ es) (a, s) = elim (Bool-cases (bytes_eq e.key k)) [
  | inl t ↦ rw t s
  | inr f ↦ rw f (a, s)
]

pub advance-AllSorted :
    (k : Bytes) (inputs : List (List MemEntry))
    → AllSorted inputs
    → AllSorted (map (advance k) inputs)
advance-AllSorted k [] s = s
advance-AllSorted k (es ∷ inputs) (s, ss) = (advance-Sorted k es s, advance-AllSorted k inputs ss)

advance-Above : (k : Bytes) (es : List MemEntry) → From k es → Sorted es → Above k (advance k es)
unfolding advance
advance-Above k [] f s = tt
advance-Above k (e ∷ es) f (a, s) = elim (Bool-cases (bytes_eq e.key k)) [
  | inl t ↦ rw t (Above-lower k e.key es f a)
  | inr ne ↦ rw ne (leb_and_neq k e.key f ne, Above-lower k e.key es f a)
]

pub advance-AllAbove :
    (k : Bytes) (inputs : List (List MemEntry))
    → AllFrom k inputs
    → AllSorted inputs
    → AllAbove k (map (advance k) inputs)
advance-AllAbove k [] f s = tt
advance-AllAbove k (es ∷ inputs) (f, fs) (s, ss) =
    (advance-Above k es f s, advance-AllAbove k inputs fs ss)

pub newest-AllAbove :
    (k : Bytes) (inputs : List (List MemEntry)) → AllAbove k inputs → newest k inputs ≡ none
newest-AllAbove k [] a = refl
newest-AllAbove k (es ∷ inputs) (a, rest) =
    rw (newest-AllAbove k inputs rest) (find-Above k k es (bytes_leb_refl k) a)

min_head-some-Before :
    (m b k : Bytes) (inputs : List (List MemEntry))
    → Before m b
    → AllAbove m inputs
    → min_head (some b) inputs ≡ some k
    → Before m k
unfolding min_head smaller
min_head-some-Before m b k [] lt a h = let same : b ≡ k = ground (arith, h) in rw (← same) lt
min_head-some-Before m b k ([] ∷ inputs) lt (a, rest) h =
    min_head-some-Before m b k inputs lt rest h
min_head-some-Before m b k ((x ∷ xs) ∷ inputs) lt ((a, ax), rest) h =
    elim (Bool-cases (bytes_leb b x.key)) [
      | inl t ↦ min_head-some-Before m b k inputs lt rest (rw t at h)
      | inr f ↦ min_head-some-Before m x.key k inputs a rest (rw f at h)
    ]

pub min_head-Before :
    (m k : Bytes) (inputs : List (List MemEntry))
    → AllAbove m inputs
    → min_head none inputs ≡ some k
    → Before m k
unfolding min_head smaller
min_head-Before m k [] a h = absurd (ground (arith, h))
min_head-Before m k ([] ∷ inputs) (a, rest) h = min_head-Before m k inputs rest h
min_head-Before m k ((x ∷ xs) ∷ inputs) ((a, ax), rest) h =
    min_head-some-Before m x.key k inputs a rest h

pub newest_head-key :
    (k : Bytes) (inputs : List (List MemEntry)) (e : MemEntry)
    → newest_head k inputs ≡ some e
    → e.key ≡ k
unfolding newest_head
newest_head-key k [] e h = absurd (ground (arith, h))
newest_head-key k ([] ∷ inputs) e h = newest_head-key k inputs e h
newest_head-key k ((x ∷ xs) ∷ inputs) e h = elim (Option-cases (newest_head k inputs)) [
  | inl n ↦ elim (Bool-cases (bytes_eq x.key k)) [
    | inl t ↦ let same : x ≡ e = ground (arith, n, t, h) in rw (← same) (bytes_eq→≡ x.key k t)
    | inr f ↦ absurd (ground (arith, n, f, h))
  ]
  | inr (y, n) ↦
      let same : y ≡ e = ground (arith, n, h) in newest_head-key k inputs e (rw same at n)
]

advance_shorter : (k : Bytes) (es : List MemEntry) → length (advance k es) ≤ length es
unfolding advance
advance_shorter k [] = omega arith
advance_shorter k (e ∷ es) = ground arith

pub total-advance :
    (k : Bytes) (inputs : List (List MemEntry)) → total (map (advance k) inputs) ≤ total inputs
total-advance k [] = omega arith
total-advance k (es ∷ inputs) = omega (arith, advance_shorter k es, total-advance k inputs)

min_head-some-shrinks :
    (b k : Bytes) (inputs : List (List MemEntry))
    → min_head (some b) inputs ≡ some k
    → (k ≡ b) ⊎ (total (map (advance k) inputs) < total inputs)
unfolding min_head smaller advance
min_head-some-shrinks b k [] h = inl (ground (arith, h))
min_head-some-shrinks b k ([] ∷ inputs) h = elim (min_head-some-shrinks b k inputs h) [
  | inl same ↦ inl same
  | inr lt ↦ inr (omega arith)
]
min_head-some-shrinks b k ((x ∷ xs) ∷ inputs) h = elim (Bool-cases (bytes_leb b x.key)) [
  | inl t ↦ elim (min_head-some-shrinks b k inputs (rw t at h)) [
    | inl same ↦ inl same
    | inr lt ↦ inr (omega (arith, lt, advance_shorter k (x ∷ xs)))
  ]
  | inr f ↦ elim (min_head-some-shrinks x.key k inputs (rw f at h)) [
    | inl same ↦
        let met : bytes_eq x.key k ≡ true = rw same (bytes_eq_refl x.key) in
        inr (rw met (omega (arith, total-advance k inputs)))
    | inr lt ↦ inr (omega (arith, lt, advance_shorter k (x ∷ xs)))
  ]
]

pub min_head-shrinks :
    (k : Bytes) (inputs : List (List MemEntry))
    → min_head none inputs ≡ some k
    → total (map (advance k) inputs) < total inputs
unfolding min_head smaller advance
min_head-shrinks k [] h = absurd (ground (arith, h))
min_head-shrinks k ([] ∷ inputs) h = omega (arith, min_head-shrinks k inputs h)
min_head-shrinks k ((x ∷ xs) ∷ inputs) h = elim (min_head-some-shrinks x.key k inputs h) [
  | inl same ↦
      let met : bytes_eq x.key k ≡ true = rw same (bytes_eq_refl x.key) in
      rw met (omega (arith, total-advance k inputs))
  | inr lt ↦ omega (arith, lt, advance_shorter k (x ∷ xs))
]
