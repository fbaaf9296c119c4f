-- ===== src/Storage/Memtable/Lookup.antt =====
-- What a lookup finds after an insertion.
use distributed_key_value_st.Base.{
  Option-cases, ℕ, suc, ◌≡◌, inl, inr, refl, ap, ◌∙◌, true, false, List, [], ◌∷◌, Option, none,
  some, if◌then◌else◌, Bool-cases, Bytes, bytes_leb, bytes_eq, bytes_leb_refl, bytes_leb_antisym,
  bytes_eq_refl, bytes_eq→≡,
}
use distributed_key_value_st.Storage.Memtable.{
  insert_at, MemEntry, Memtable, kind_put, kind_delete, entry_at, insert, get,
}
use distributed_key_value_st.Storage.Memtable.Order.{
  Before, Above, Sorted, Above-lower, scan, insert_sorted, find, position-scan,
}

pub leb_of_eq : (x y : Bytes) → bytes_eq x y ≡ true → bytes_leb y x ≡ true
leb_of_eq x y h = let e = bytes_eq→≡ x y h in rw e (bytes_leb_refl y)

pub find-Above :
    (k y : Bytes) (es : List MemEntry) → bytes_leb k y ≡ true → Above y es → find k es ≡ none
find-Above k y [] le h = refl
find-Above k y (e ∷ es) le (h, hs) = elim (Bool-cases (bytes_eq e.key k)) [
  | inl t ↦
      let a = bytes_eq→≡ e.key k t in
      let b : bytes_leb e.key y ≡ true = rw a le in absurd (cc (b, h))
  | inr f ↦ rw f (find-Above k y es le hs)
]

entry_at-scan : (k : Bytes) (es : List MemEntry) → Sorted es → entry_at k (scan k es) es ≡ find k es
unfolding entry_at
entry_at-scan k [] s = refl
entry_at-scan k (e ∷ es) (above, s) = elim (Bool-cases (bytes_leb k e.key)) [
  | inl t ↦
      rw (t, find-Above k e.key es t above)
        (elim (Bool-cases (bytes_eq e.key k)) [ inl a ↦ rw a refl | inr a ↦ rw a refl ])
  | inr f ↦ elim (Bool-cases (bytes_eq e.key k)) [
    | inl a ↦ let b = leb_of_eq e.key k a in absurd (cc (b, f))
    | inr a ↦ rw (f, a) (entry_at-scan k es s)
  ]
]

insert_at-later :
    (i : ℕ) (e x : MemEntry) (xs : List MemEntry)
    → insert_at (suc i) e (x ∷ xs) ≡ x ∷ insert_at i e xs
unfolding insert_at entry_at
insert_at-later i e x xs = elim (Option-cases (entry_at e.key i xs)) [
  | inl n ↦ rw (n, insert_at) refl
  | inr (o, n) ↦ rw (n, insert_at) refl
]

insert_at-front :
    (e x : MemEntry) (xs : List MemEntry)
    → insert_at 0 e (x ∷ xs) ≡ (if bytes_eq x.key e.key then e ∷ xs else e ∷ x ∷ xs)
unfolding insert_at entry_at
insert_at-front e x xs = elim (Bool-cases (bytes_eq x.key e.key)) [
  | inl a ↦ rw (a, insert_at) refl
  | inr a ↦ rw (a, insert_at) refl
]

insert_at-scan :
    (e : MemEntry) (es : List MemEntry) → insert_at (scan e.key es) e es ≡ insert_sorted e es
unfolding insert_at entry_at
insert_at-scan e [] = refl
insert_at-scan e (x ∷ xs) = elim (Bool-cases (bytes_leb e.key x.key)) [
  | inl t ↦ rw t (insert_at-front e x xs)
  | inr f ↦ rw f (insert_at-later (scan e.key xs) e x xs ∙ ap (λ l. x ∷ l) (insert_at-scan e xs))
]

pub insert-insert_sorted :
    (e : MemEntry) (es : List MemEntry) → Sorted es → insert e es ≡ insert_sorted e es
unfolding insert
insert-insert_sorted e es s =
    ap (λ i. insert_at i e es) (position-scan e.key es s) ∙ insert_at-scan e es

Above-insert_sorted :
    (k : Bytes) (e : MemEntry) (es : List MemEntry)
    → Before k e.key
    → Above k es
    → Above k (insert_sorted e es)
Above-insert_sorted k e [] b a = (b, a)
Above-insert_sorted k e (x ∷ xs) b (h, hs) = elim (Bool-cases (bytes_leb e.key x.key)) [
  | inl t ↦ elim (Bool-cases (bytes_eq x.key e.key)) [
    | inl q ↦ rw (t, q) (b, hs)
    | inr q ↦ rw (t, q) (b, (h, hs))
  ]
  | inr f ↦ rw f (h, Above-insert_sorted k e xs b hs)
]

pub leb_and_neq : (x y : Bytes) → bytes_leb x y ≡ true → bytes_eq y x ≡ false → Before x y
leb_and_neq x y le ne = elim (Bool-cases (bytes_leb y x)) [
  | inl t ↦
      let e = bytes_leb_antisym x y le t in
      let r : bytes_eq y x ≡ true = rw e (bytes_eq_refl y) in absurd (cc (r, ne))
  | inr f ↦ f
]

pub insert_sorted-Sorted :
    (e : MemEntry) (es : List MemEntry) → Sorted es → Sorted (insert_sorted e es)
insert_sorted-Sorted e [] s = (tt, tt)
insert_sorted-Sorted e (x ∷ xs) (a, s) = elim (Bool-cases (bytes_leb e.key x.key)) [
  | inl t ↦ elim (Bool-cases (bytes_eq x.key e.key)) [
    | inl q ↦ rw (t, q) (Above-lower e.key x.key xs t a, s)
    | inr q ↦ rw (t, q) ((leb_and_neq e.key x.key t q, Above-lower e.key x.key xs t a), (a, s))
  ]
  | inr f ↦ rw f (Above-insert_sorted x.key e xs f a, insert_sorted-Sorted e xs s)
]

pub find-insert_sorted :
    (k : Bytes) (e : MemEntry) (es : List MemEntry)
    → find k (insert_sorted e es) ≡ (if bytes_eq e.key k then some e else find k es)
find-insert_sorted k e [] = refl
find-insert_sorted k e (x ∷ xs) = elim (Bool-cases (bytes_leb e.key x.key)) [
  | inl t ↦ elim (Bool-cases (bytes_eq x.key e.key)) [
    | inl q ↦
        let same = bytes_eq→≡ x.key e.key q in
        rw (t, q)
          (rw same (elim (Bool-cases (bytes_eq e.key k)) [ inl a ↦ rw a refl | inr a ↦ rw a refl ]))
    | inr q ↦ rw (t, q) refl
  ]
  | inr f ↦ elim (Bool-cases (bytes_eq x.key k)) [
    | inl a ↦ elim (Bool-cases (bytes_eq e.key k)) [
      | inl b ↦
          let xk = bytes_eq→≡ x.key k a in
          let ek = bytes_eq→≡ e.key k b in
          let r : bytes_leb e.key x.key ≡ true = rw (xk, ek) (bytes_leb_refl k) in
          absurd (cc (r, f))
      | inr b ↦ rw (f, a, b) refl
    ]
    | inr a ↦ rw (f, a) (find-insert_sorted k e xs)
  ]
]

-- What `get` answers from the entry that it finds.
abbrev pub answer : Option MemEntry → Option Bytes
answer none = none
answer (some e) = elim e.kind [ kind_delete ↦ none | kind_put ↦ some e.value ]

pub get-find : (k : Bytes) (m : Memtable) → Sorted m.entries → get k m ≡ answer (find k m.entries)
unfolding get
get-find k m s =
    let found =
      ap (λ i. entry_at k i m.entries) (position-scan k m.entries s)
      ∙ entry_at-scan k m.entries s in
    rw (found, get) refl
