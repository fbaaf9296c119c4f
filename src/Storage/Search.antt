-- ===== src/Storage/Search.antt =====
-- sort.Search of the Go library: binary search for the first index at which a test holds.
use distributed_key_value_st.Base.{
  ℕ, zero, suc, ◌+◌, ◌/◌, ◌≤◌, ◌<◌, ◌≡◌, inl, inr, Bool, true, false, ltb, not, if◌then◌else◌,
  arith, Bool-cases,
}

-- The loop, with fuel for each halving of the range.
unfoldable pub search_between : (ℕ → Bool) → ℕ → ℕ → ℕ → ℕ
search_between f zero i j = i
search_between f (suc fuel) i j =
    let h = (i + j) / 2 in
    let upper = search_between f fuel (h + 1) j in
    let lower = search_between f fuel i h in
    if ltb i j then if not (f h) then upper else lower else i

unfoldable pub search : ℕ → (ℕ → Bool) → ℕ
search n f = search_between f n 0 n

-- The test fails below `r`, and holds at `r` unless that is the end.
pub record FirstIndex (f : ℕ → Bool) (n r : ℕ) : Type 0 where
  pub inside : r ≤ n
  pub below : (a : ℕ) → a < r → f a ≡ false
  pub at : r < n → f r ≡ true

-- Once the test holds it holds at all later indexes.
abbrev pub Monotone : (ℕ → Bool) → Type 0
Monotone f = (a b : ℕ) → a ≤ b → f a ≡ true → f b ≡ true

module _ (f : ℕ → Bool) (mono : Monotone f) where
  fails_below : (a b : ℕ) → a ≤ b → f b ≡ false → f a ≡ false
  fails_below a b le h = elim (Bool-cases (f a)) [ inl t ↦ cc (mono a b le t, h) | inr e ↦ e ]

  search_between-FirstIndex :
      (fuel i j n : ℕ)
      → i ≤ j
      → j ≤ n
      → j ≤ i + fuel
      → ((a : ℕ) → a < i → f a ≡ false)
      → (j < n → f j ≡ true)
      → FirstIndex f n (search_between f fuel i j)
  unfolding search_between
  search_between-FirstIndex zero i j n le inside enough below at =
      let same : i ≡ j = omega arith in
      record { inside = omega arith; below = below; at = λ h. rw same (at (omega arith)) }
  search_between-FirstIndex (suc fuel) i j n le inside enough below at =
      let h = (i + j) / 2 in
      elim (Bool-cases (ltb i j)) [
        | inl more ↦ elim (Bool-cases (f h)) [
          | inl t ↦
              rw (more, t)
                (search_between-FirstIndex fuel i h n (omega arith) (ground arith) (ground arith)
                  below (λ _. t))
          | inr e ↦
              rw (more, e)
                (search_between-FirstIndex fuel (h + 1) j n (ground arith) inside (ground arith)
                  (λ a lt. fails_below a h (omega arith) e) at)
        ]
        | inr done ↦
            let same : i ≡ j = ground arith in
            rw done (record {
              inside = omega arith;
              below = below;
              at = λ lt. rw same (at (omega arith));
            })
      ]

  pub search-FirstIndex : (n : ℕ) → FirstIndex f n (search n f)
  unfolding search
  search-FirstIndex n =
      search_between-FirstIndex n 0 n n (omega arith) (omega arith) (omega arith)
        (λ a lt. absurd (omega arith)) (λ lt. absurd (omega arith))

-- There is only one first index.
pub FirstIndex-unique : (f : ℕ → Bool) (n r s : ℕ) → FirstIndex f n r → FirstIndex f n s → r ≡ s
FirstIndex-unique f n r s hr hs = elim (Bool-cases (ltb r s)) [
  | inl lt ↦
      let a = hs.below r (ground arith) in
      let b = hr.at (ground (arith, hs.inside)) in absurd (cc (a, b))
  | inr ge ↦ elim (Bool-cases (ltb s r)) [
    | inl lt ↦
        let a = hr.below s (ground arith) in
        let b = hs.at (ground (arith, hr.inside)) in absurd (cc (a, b))
    | inr eq ↦ ground arith
  ]
]
