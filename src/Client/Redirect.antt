-- ===== src/Client/Redirect.antt =====
-- client/main.go: where a leader hint leads.
use distributed_key_value_st.Base.{
  length-append, ◌≤◌, ℕ, suc, ◌+◌, ◌%◌, ◌≡◌, ◌≢◌, ◌⊎◌, inl, inr, refl, sym, ap, false, List, [],
  ◌∷◌, ◌++◌, Option, some, length, get_elem?, String, str_eq, eq_iff, arith, Bool-cases,
  Option-cases,
}
use native.Mathlib.Nat.{mod-eq_of_lt, zero-mod}
use distributed_key_value_st.Client.{
  GetResponse, split_at_hint, redirect_first, address_of, get_loop, do_get,
}

-- The hint is at the front, and the other addresses follow in their order.
abbrev pub Fronted : List String → String → List String → Type 0
Fronted addrs hint out =
    (out ≡ hint ∷ addrs)
    ⊎ ((before : List String) × (after : List String) × (addrs ≡ before ++ hint ∷ after)
        × (out ≡ hint ∷ before ++ after))

split_at_hint-eq :
    (hint : String) (addrs before after : List String)
    → split_at_hint hint addrs ≡ some (before, after)
    → addrs ≡ before ++ hint ∷ after
unfolding split_at_hint
split_at_hint-eq hint [] before after h = absurd (ground (arith, h))
split_at_hint-eq hint (a ∷ addrs) before after h = elim (Bool-cases (str_eq a hint)) [
  | inl t ↦
      let same = (eq_iff a hint).0 t in
      let front : [] ≡ before = ground (arith, t, h) in
      let rest : addrs ≡ after = ground (arith, t, h) in rw (same, ← front, ← rest) refl
  | inr f ↦ elim (Option-cases (split_at_hint hint addrs)) [
    | inl n ↦ absurd (ground (arith, f, n, h))
    | inr ((b, c), n) ↦
        let front : a ∷ b ≡ before = ground (arith, f, n, h) in
        let rest : c ≡ after = ground (arith, f, n, h) in
        rw (← front, ← rest) (ap (λ l. a ∷ l) (split_at_hint-eq hint addrs b c n))
  ]
]

-- redirectFirst puts the hint at the front, and keeps the other addresses in their order: one that
-- is in the list moves, one that is not is added.
pub redirect_first-Fronted :
    (addrs : List String) (hint : String) → Fronted addrs hint (redirect_first addrs hint)
unfolding redirect_first
redirect_first-Fronted addrs hint = elim (Option-cases (split_at_hint hint addrs)) [
  | inl n ↦ rw (n, redirect_first) (inl refl)
  | inr ((before, after), n) ↦
      rw (n, redirect_first) (inr (before, after, split_at_hint-eq hint addrs before after n, refl))
]

differs : (x y : String) → x ≢ y → str_eq x y ≡ false
differs x y ne = elim (Bool-cases (str_eq x y)) [
  | inl t ↦ absurd (ne ((eq_iff x y).0 t))
  | inr f ↦ f
]

second_after_redirect :
    (a : String) (addrs : List String) (hint : String)
    → str_eq a hint ≡ false
    → get_elem? (redirect_first (a ∷ addrs) hint) 1 ≡ some a
unfolding redirect_first split_at_hint
second_after_redirect a addrs hint f = elim (Option-cases (split_at_hint hint addrs)) [
  | inl n ↦ rw (redirect_first, split_at_hint, f, n) refl
  | inr ((before, after), n) ↦ rw (redirect_first, split_at_hint, f, n) refl
]

Fronted-length :
    (addrs : List String) (hint : String) (out : List String)
    → Fronted addrs hint out
    → length addrs ≤ length out
Fronted-length addrs hint out (inl e) = omega (arith, ap length e)
Fronted-length addrs hint out (inr (before, after, e, e')) = omega (
  arith,
  ap length e,
  ap length e',
  length-append before (hint ∷ after),
  length-append before after,
)

get_loop-redirected :
    (rpc : ℕ → String → Option GetResponse) (left attempt : ℕ) (a : String) (addrs : List String)
    (resp : GetResponse)
    → address_of attempt addrs ≡ some a
    → rpc attempt a ≡ some resp
    → str_eq resp.leader_hint "" ≡ false
    → get_loop rpc (suc left) attempt addrs
      ≡ get_loop rpc left (attempt + 1) (redirect_first addrs resp.leader_hint)
unfolding get_loop
get_loop-redirected rpc left attempt a addrs resp at answered hinted =
    rw (at, get_loop, answered, hinted) refl

-- When the first address of two or more redirects a Get to another one, the next attempt calls the
-- first address again and not the hint.
pub redirect_asks_again :
    (rpc : ℕ → String → Option GetResponse) (a b : String) (addrs : List String)
    (resp : GetResponse)
    → rpc 0 a ≡ some resp
    → resp.leader_hint ≢ ""
    → resp.leader_hint ≢ a
    → let next = redirect_first (a ∷ b ∷ addrs) resp.leader_hint in
      (do_get rpc (a ∷ b ∷ addrs) ≡ get_loop rpc 9 1 next) × (address_of 1 next ≡ some a)
unfolding do_get address_of
redirect_asks_again rpc a b addrs resp answered hinted other =
    let next = redirect_first (a ∷ b ∷ addrs) resp.leader_hint in
    let hint : str_eq resp.leader_hint "" ≡ false = differs _ _ hinted in
    let not_here : str_eq a resp.leader_hint ≡ false = differs _ _ (λ e. other (sym e)) in
    let long =
      Fronted-length (a ∷ b ∷ addrs) resp.leader_hint next
        (redirect_first-Fronted (a ∷ b ∷ addrs) resp.leader_hint) in
    let first_address : address_of 0 (a ∷ b ∷ addrs) ≡ some a =
      rw (zero-mod (length (a ∷ b ∷ addrs))) refl in
    let place : 1 % length next ≡ 1 = mod-eq_of_lt (omega arith) in
    (
      get_loop-redirected rpc 9 0 a (a ∷ b ∷ addrs) resp first_address answered hint,
      rw place (second_after_redirect a (b ∷ addrs) resp.leader_hint not_here),
    )
