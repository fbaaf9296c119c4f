-- ===== src/Storage/Sstable/Scan.antt =====
-- storage/sstable.go: what the loops of Get and IterateAll find in a data block.
use distributed_key_value_st.Storage.Memtable.Lookup.{find-Above, leb_of_eq}
use distributed_key_value_st.Storage.Engine.View.{filed, in_list}
use distributed_key_value_st.Storage.Sstable.Records.{
  entry_size-nine, write_entries-append, read_entry-record_of, length-write_entries, record_of,
}
use distributed_key_value_st.Storage.Memtable.Order.{Before→leb, Sorted, Before}
use distributed_key_value_st.Storage.Codec.RoundTrip.{Fits}
use distributed_key_value_st.Storage.Memtable.{MemEntry}
use distributed_key_value_st.Storage.Sstable.{
  entry_size, read_entry, iterate_loop, scan_for, write_entries,
}
use distributed_key_value_st.Base.{
  ap, bytes_leb_total, refl, zero, bytes_eq_refl, none, some, bytes_leb_antisym, Option-cases,
  if◌then◌else◌, Bool-cases, arith, ltb, map, inr, bytes_eq, suc, ◌++◌, inl, ◌⊎◌, false, ◌<◌, ◌+◌,
  [], ◌≤◌, true, ◌≡◌, length, bytes_leb, ◌∷◌, ℕ, List, Bytes,
}

-- Some key of the table is not below `key`.
abbrev pub Reaches : Bytes → List MemEntry → Type 0
Reaches key [] = ⊥
Reaches key (e ∷ es) = (bytes_leb key e.key ≡ true) ⊎ Reaches key es

Reaches-later :
    (key : Bytes) (e : MemEntry) (es : List MemEntry)
    → bytes_leb key e.key ≡ false
    → Reaches key (e ∷ es)
    → Reaches key es
Reaches-later key e es h (inl t) = absurd (cc (h, t))
Reaches-later key e es h (inr r) = r

-- One round of the loop of Get at an entry that is there.
scan_for-record :
    (fuel : ℕ) (key : Bytes) (e : MemEntry) (rest : Bytes)
    → length e.key < 4294967296
    → length e.value < 4294967296
    → scan_for (suc fuel) key (record_of e rest) ≡ (
        if bytes_eq e.key key
        then some (e.value, e.kind)
        else if bytes_leb e.key key
        then scan_for fuel key rest
        else none)
unfolding scan_for
scan_for-record fuel key e rest hk hv = rw (read_entry-record_of e rest hk hv, scan_for) refl

-- The loop stops in the block, if a key there is not below the one that is looked for.
pub scan_for-Reaches :
    (key : Bytes) (es : List MemEntry) (rest : Bytes) (fuel : ℕ)
    → Fits es
    → length es ≤ fuel
    → Sorted es
    → Reaches key es
    → scan_for fuel key (write_entries es ++ rest) ≡ in_list key es
scan_for-Reaches key [] rest fuel f l s r = elim r [ ]
scan_for-Reaches key (e ∷ es) rest zero f l s r = absurd (omega arith)
scan_for-Reaches key (e ∷ es) rest (suc fuel) ((hk, hv), f) l (above, s) r =
    rw (write_entries-append e es rest, scan_for-record fuel key e (write_entries es ++ rest) hk hv)
      (elim (Bool-cases (bytes_eq e.key key)) [
        | inl t ↦ rw t refl
        | inr t ↦ elim (Bool-cases (bytes_leb e.key key)) [
          | inl u ↦
              let below : bytes_leb key e.key ≡ false = not_both key e.key u t in
              rw (t, u)
                (scan_for-Reaches key es rest fuel f (omega arith) s
                  (Reaches-later key e es below r))
          | inr u ↦
              let past = bytes_leb_total e.key key u in
              rw (t, u, find-Above key e.key es past above) refl
        ]
      ])
  where
    not_both : (x y : Bytes) → bytes_leb y x ≡ true → bytes_eq y x ≡ false → bytes_leb x y ≡ false
    not_both x y le ne = elim (Bool-cases (bytes_leb x y)) [
      | inl ge ↦
          let same = bytes_leb_antisym y x le ge in
          let eq : bytes_eq y x ≡ true = rw same (bytes_eq_refl x) in absurd (cc (eq, ne))
      | inr lt ↦ lt
    ]

-- Every key of the table is below `key`.
abbrev pub Past : Bytes → List MemEntry → Type 0
Past key [] = Unit {0}
Past key (e ∷ es) = Before e.key key × Past key es

-- The loop runs on behind the block, if every key there is below the one that is looked for.
pub scan_for-Past :
    (key : Bytes) (es : List MemEntry) (rest : Bytes) (fuel : ℕ)
    → Fits es
    → Past key es
    → scan_for (length es + fuel) key (write_entries es ++ rest) ≡ scan_for fuel key rest
unfolding write_entries
scan_for-Past key [] rest fuel f p =
    let same : 0 + fuel ≡ fuel = omega arith in ap (λ k. scan_for k key rest) same
scan_for-Past key (e ∷ es) rest fuel ((hk, hv), f) (before, p) =
    let le = Before→leb e.key key before in
    let ne : bytes_eq e.key key ≡ false = differs e.key key before in
    let more : suc (length es) + fuel ≡ suc (length es + fuel) = omega arith in
    rw
      (
        more,
        write_entries-append e es rest,
        scan_for-record (length es + fuel) key e (write_entries es ++ rest) hk hv,
        ne,
        le,
      )
      (scan_for-Past key es rest fuel f p)
  where
    differs : (x y : Bytes) → Before x y → bytes_eq x y ≡ false
    differs x y h = elim (Bool-cases (bytes_eq x y)) [
      | inl t ↦ let le = leb_of_eq x y t in absurd (cc (le, h))
      | inr t ↦ t
    ]

iterate_loop-end : (fuel pos : ℕ) (rest : Bytes) → iterate_loop fuel pos pos rest ≡ []
unfolding iterate_loop
iterate_loop-end zero pos rest = refl
iterate_loop-end (suc fuel) pos rest =
    let done : ltb pos pos ≡ false = ground arith in
    elim (Option-cases (read_entry rest)) [
      | inl n ↦ rw (n, iterate_loop) refl
      | inr ((e, more), n) ↦ rw (n, iterate_loop, done) refl
    ]

iterate_loop-record :
    (fuel pos bound : ℕ) (e : MemEntry) (rest : Bytes)
    → length e.key < 4294967296
    → length e.value < 4294967296
    → iterate_loop (suc fuel) pos bound (record_of e rest)
      ≡ (if ltb pos bound then filed e ∷ iterate_loop fuel (pos + entry_size e) bound rest else [])
unfolding iterate_loop entry_size
iterate_loop-record fuel pos bound e rest hk hv =
    rw (read_entry-record_of e rest hk hv, iterate_loop) refl

-- The loop of IterateAll gives the entries of the block and stops behind it.
pub iterate_loop-write_entries :
    (es : List MemEntry) (rest : Bytes) (fuel pos bound : ℕ)
    → Fits es
    → length es ≤ fuel
    → bound ≡ pos + length (write_entries es)
    → iterate_loop fuel pos bound (write_entries es ++ rest) ≡ map filed es
unfolding write_entries
iterate_loop-write_entries [] rest fuel pos bound f l b =
    let here : bound ≡ pos = omega (arith, b) in rw here (iterate_loop-end fuel pos rest)
iterate_loop-write_entries (e ∷ es) rest zero pos bound f l b = absurd (omega arith)
iterate_loop-write_entries (e ∷ es) rest (suc fuel) pos bound ((hk, hv), f) l b =
    let total = length-write_entries e es in
    let inside : ltb pos bound ≡ true = ground (arith, b, total, entry_size-nine e) in
    rw
      (
        write_entries-append e es rest,
        iterate_loop-record fuel pos bound e (write_entries es ++ rest) hk hv,
        inside,
        iterate_loop-write_entries es rest fuel (pos + entry_size e) bound f (omega arith)
            (omega (arith, b, total)),
      )
      refl
