-- ===== src/Storage/Merge/Heads.antt =====
-- One round of the merge on sorted inputs.
use distributed_key_value_st.Base.{
  prefer, ◌≡◌, inl, inr, refl, true, List, [], ◌∷◌, Option, none, some, Bool-cases, Bytes,
  bytes_leb, bytes_leb_refl, bytes_leb_trans, bytes_leb_total,
}
use distributed_key_value_st.Storage.Memtable.{MemEntry}
use distributed_key_value_st.Storage.Memtable.Order.{Above, Sorted, find}
use distributed_key_value_st.Storage.Merge.{smaller, min_head}

abbrev pub AllSorted : List (List MemEntry) → Type 0
AllSorted [] = Unit {0}
AllSorted (es ∷ inputs) = Sorted es × AllSorted inputs

abbrev pub AllAbove : Bytes → List (List MemEntry) → Type 0
AllAbove k [] = Unit {0}
AllAbove k (es ∷ inputs) = Above k es × AllAbove k inputs

-- The first key of an input, if it has any, is not below `k`.
abbrev pub From : Bytes → List MemEntry → Type 0
From k [] = Unit {0}
From k (e ∷ es) = bytes_leb k e.key ≡ true

abbrev pub AllFrom : Bytes → List (List MemEntry) → Type 0
AllFrom k [] = Unit {0}
AllFrom k (es ∷ inputs) = From k es × AllFrom k inputs

-- The entry that the last input with the key has.
abbrev pub newest : Bytes → List (List MemEntry) → Option MemEntry
newest k [] = none
newest k (es ∷ inputs) = prefer (newest k inputs) (find k es)

From-lower : (x y : Bytes) (es : List MemEntry) → bytes_leb x y ≡ true → From y es → From x es
From-lower x y [] a h = tt
From-lower x y (e ∷ es) a h = bytes_leb_trans x y e.key a h

-- The smallest head: it is not above the best so far, and all heads are from it on.
min_head-some :
    (b : Bytes) (inputs : List (List MemEntry))
    → (k : Bytes) × (min_head (some b) inputs ≡ some k) × (bytes_leb k b ≡ true) × AllFrom k inputs
unfolding min_head smaller
min_head-some b [] = (b, refl, bytes_leb_refl b, tt)
min_head-some b ([] ∷ inputs) =
    let (k, e, le, from) = min_head-some b inputs in (k, e, le, (tt, from))
min_head-some b ((x ∷ xs) ∷ inputs) = elim (Bool-cases (bytes_leb b x.key)) [
  | inl t ↦
      let (k, e, le, from) = min_head-some b inputs in
      (k, rw t e, le, (bytes_leb_trans k b x.key le t, from))
  | inr f ↦
      let (k, e, le, from) = min_head-some x.key inputs in
      (k, rw f e, bytes_leb_trans k x.key b le (bytes_leb_total b x.key f), (le, from))
]

pub min_head-AllFrom :
    (inputs : List (List MemEntry)) (k : Bytes) → min_head none inputs ≡ some k → AllFrom k inputs
unfolding min_head smaller
min_head-AllFrom [] k h = tt
min_head-AllFrom ([] ∷ inputs) k h = (tt, min_head-AllFrom inputs k h)
min_head-AllFrom ((x ∷ xs) ∷ inputs) k h =
    let (k', e, le, from) = min_head-some x.key inputs in
    let same : k' ≡ k = cc (e, h) in (rw same at le, rw same at from)

pub min_head-none :
    (q : Bytes) (inputs : List (List MemEntry))
    → min_head none inputs ≡ none
    → newest q inputs ≡ none
unfolding min_head smaller
min_head-none q [] h = refl
min_head-none q ([] ∷ inputs) h = rw (min_head-none q inputs h) refl
min_head-none q ((x ∷ xs) ∷ inputs) h =
    let (k', e, le, from) = min_head-some x.key inputs in absurd (cc (e, h))
