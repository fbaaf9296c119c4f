-- ===== src/Raft/Log/Indexed.antt =====
-- Logs whose entries carry consecutive indexes, and what the memory store keeps of them.
use distributed_key_value_st.Base.{
  ℕ, suc, ◌+◌, ◌≤◌, ◌<◌, ◌≡◌, refl, List, [], ◌∷◌, ◌++◌, length, arith,
}
use distributed_key_value_st.Raft.Types.{LogEntry}
use distributed_key_value_st.Raft.MemState.{keep_up_to, keep_after}

-- The entries of the list have the indexes b, b + 1, ….
abbrev pub Indexed : ℕ → List LogEntry → Type 0
Indexed b [] = Unit {0}
Indexed b (e ∷ es) = (e.index ≡ b) × Indexed (b + 1) es

pub Indexed-append :
    (b : ℕ) (xs ys : List LogEntry)
    → Indexed b xs
    → Indexed (b + length xs) ys
    → Indexed b (xs ++ ys)
Indexed-append b [] ys hx hy = let e : b + 0 ≡ b = omega arith in rw e at hy
Indexed-append b (x ∷ xs) ys hx hy =
    let e : b + suc (length xs) ≡ b + 1 + length xs = omega arith in
    (hx.0, Indexed-append (b + 1) xs ys hx.1 (rw e at hy))

pub keep_up_to-all :
    (b c : ℕ) (xs : List LogEntry) → Indexed b xs → b + length xs ≤ c + 1 → keep_up_to c xs ≡ xs
unfolding keep_up_to
keep_up_to-all b c [] h fits = refl
keep_up_to-all b c (x ∷ xs) h fits = ground (arith, keep_up_to-all (b + 1) c xs h.1)

pub keep_up_to-none : (b c : ℕ) (xs : List LogEntry) → Indexed b xs → c < b → keep_up_to c xs ≡ []
unfolding keep_up_to
keep_up_to-none b c [] h above = refl
keep_up_to-none b c (x ∷ xs) h above = ground (arith, keep_up_to-none (b + 1) c xs h.1)

-- Truncation behind the first part of a list keeps just that part.
pub keep_up_to-append :
    (b c : ℕ) (xs ys : List LogEntry)
    → Indexed b (xs ++ ys)
    → b + length xs ≡ c + 1
    → keep_up_to c (xs ++ ys) ≡ xs
unfolding keep_up_to
keep_up_to-append b c [] ys h e = keep_up_to-none b c ys h (omega arith)
keep_up_to-append b c (x ∷ xs) ys h e = ground (arith, keep_up_to-append (b + 1) c xs ys h.1)

pub keep_after-all : (b c : ℕ) (xs : List LogEntry) → Indexed b xs → c < b → keep_after c xs ≡ xs
unfolding keep_after
keep_after-all b c [] h above = refl
keep_after-all b c (x ∷ xs) h above = ground (arith, keep_after-all (b + 1) c xs h.1)

-- The suffix that TruncatePrefix keeps.
pub keep_after-append :
    (b c : ℕ) (xs ys : List LogEntry)
    → Indexed b (xs ++ ys)
    → b + length xs ≡ c + 1
    → keep_after c (xs ++ ys) ≡ ys
unfolding keep_after
keep_after-append b c [] ys h e = keep_after-all b c ys h (omega arith)
keep_after-append b c (x ∷ xs) ys h e = ground (arith, keep_after-append (b + 1) c xs ys h.1)
